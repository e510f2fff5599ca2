-- ===== src/Dispatch/Progress.antt =====
-- internal/dispatch/dispatch.go: a measure of the work that is left once the pool is closed.
use prukka.Base.{
  none-some, some-inj, ℕ, zero, suc, ◌+◌, ◌*◌, ◌<◌, ◌≡◌, refl, sym, ap, subst, ◌∙◌, Bool, true,
  false, ◌||◌, some, List, [], ◌∷◌, ◌++◌, ltb, Bool-cases, if-split, inl, inr, arith, length,
  length-append, length-replicate, replicate,
}
use prukka.Dispatch.{
  Worker, idle, stopped, running, Closing, not_called, draining, stopping, returned, Pool, new_pool,
  enqueue, give_up, take_job, end_job, stop_worker, begin_close, close_done, end_close, Step,
  entering, enqueueing, giving_up, taking, ending, worker_stopping, closing_begins, closing_drained,
  closing_ends, Reaches, here, next,
}
use prukka.Dispatch.Counting.{busy, busy-append}
use prukka.Dispatch.Invariant.{Inv, Reaches-Inv, enter-some}

-- The workers that have not returned.
unfoldable pub alive : List Worker → ℕ
alive [] = 0
alive (idle ∷ ws) = suc (alive ws)
alive (stopped ∷ ws) = alive ws
alive (running k ∷ ws) = suc (alive ws)

alive-append : (xs ys : List Worker) → alive (xs ++ ys) ≡ alive xs + alive ys
unfolding alive
alive-append [] ys = omega arith
alive-append (idle ∷ xs) ys = omega (arith, alive-append xs ys)
alive-append (stopped ∷ xs) ys = alive-append xs ys
alive-append (running k ∷ xs) ys = omega (arith, alive-append xs ys)

alive-idle : (n : ℕ) → alive (replicate n idle) ≡ length (replicate n idle)
unfolding alive
alive-idle zero = refl
alive-idle (suc n) = ap suc (alive-idle n)

abbrev pub stages_left : Closing → ℕ
stages_left not_called = 3
stages_left draining = 2
stages_left stopping = 1
stages_left returned = 0

-- The work that is left.
unfoldable pub left_to_do : Pool → ℕ
left_to_do p =
    4 * length p.waiting
    + 3 * length p.queue
    + 2 * busy p.workers
    + alive p.workers
    + stages_left p.closing

pub record Shape (p : Pool) : Type 0 where
  pub some_room : 0 < p.capacity
  pub some_worker : 0 < length p.workers
  pub unstopped : p.done ≡ false → alive p.workers ≡ length p.workers

-- A worker in another state among the same others.
around :
    (ws before : List Worker) (old new : Worker) (behind : List Worker)
    → ws ≡ before ++ (old ∷ behind)
    → (length (before ++ (new ∷ behind)) ≡ length ws)
      × (alive (before ++ (new ∷ behind)) + alive (old ∷ []) ≡ alive ws + alive (new ∷ []))
      × (busy (before ++ (new ∷ behind)) + busy (old ∷ []) ≡ busy ws + busy (new ∷ []))
around ws before old new behind e = (
  omega (
    arith,
    ap length e,
    length-append before (new ∷ behind),
    length-append before (old ∷ behind),
  ),
  omega (
    arith,
    ap alive e,
    alive-append before (new ∷ behind),
    alive-append before (old ∷ behind),
    alive-append (new ∷ []) behind,
    alive-append (old ∷ []) behind,
  ),
  omega (
    arith,
    ap busy e,
    busy-append before (new ∷ behind),
    busy-append before (old ∷ behind),
    busy-append (new ∷ []) behind,
    busy-append (old ∷ []) behind,
  ),
)

pub Step-Shape : {p q : Pool} → Step p q → Inv p → Shape p → Shape q
unfolding alive enqueue give_up take_job end_job stop_worker close_done end_close begin_close
Step-Shape {p} (entering job q e) i s =
    subst Shape (enter-some p q job e).1
      (record { some_room = s.some_room; some_worker = s.some_worker; unstopped = s.unstopped })
Step-Shape {p} (enqueueing before job behind e l) i s = record {
  some_room = s.some_room;
  some_worker = s.some_worker;
  unstopped = s.unstopped;
}
Step-Shape {p} (giving_up before job behind e) i s = record {
  some_room = s.some_room;
  some_worker = s.some_worker;
  unstopped = s.unstopped;
}
Step-Shape {p} (taking before job behind rest e k) i s = record {
  some_room = s.some_room;
  some_worker = omega (arith, around p.workers before idle (running job) behind e, s.some_worker);
  unstopped =
      λ f. omega (arith, around p.workers before idle (running job) behind e, s.unstopped f);
}
Step-Shape {p} (ending before job behind e) i s = record {
  some_room = s.some_room;
  some_worker = omega (arith, around p.workers before (running job) idle behind e, s.some_worker);
  unstopped =
      λ f. omega (arith, around p.workers before (running job) idle behind e, s.unstopped f);
}
Step-Shape {p} (worker_stopping before behind e d) i s = record {
  some_room = s.some_room;
  some_worker = omega (arith, around p.workers before idle stopped behind e, s.some_worker);
  unstopped = λ f. cc (f, d);
}
Step-Shape {p} closing_begins i s =
    if-split Shape p.closed p (record p { closed = true; closing = draining }) (λ c. s)
      (λ c. record {
        some_room = s.some_room;
        some_worker = s.some_worker;
        unstopped = s.unstopped;
      })
Step-Shape {p} (closing_drained c z) i s = record {
  some_room = s.some_room;
  some_worker = s.some_worker;
  unstopped = λ f. cc;
}
Step-Shape {p} (closing_ends c f) i s = record {
  some_room = s.some_room;
  some_worker = s.some_worker;
  unstopped = s.unstopped;
}

new_pool-Shape : (workers queue : ℕ) (p : Pool) → new_pool workers queue ≡ some p → Shape p
unfolding new_pool
new_pool-Shape workers queue p e = elim (Bool-cases (ltb workers 1 || ltb queue 1)) [
  | inl c ↦ absurd (none-some (rw (c, new_pool) at e))
  | inr c ↦ subst Shape (some-inj (rw (c, new_pool) at e)) (record {
    some_room = ground arith;
    some_worker = ground (arith, length-replicate workers idle);
    unstopped = λ f. alive-idle workers;
  })
]

pub Reaches-Shape :
    {start p : Pool} (workers queue : ℕ)
    → new_pool workers queue ≡ some start
    → Reaches start p
    → Shape p
Reaches-Shape {start} workers queue e here = new_pool-Shape workers queue start e
Reaches-Shape workers queue e (next r s) =
    Step-Shape s (Reaches-Inv workers queue e r) (Reaches-Shape workers queue e r)

pub true-false : true ≡ false → ⊥
true-false h = cc

-- Whether a step is a call of Close.
unfoldable pub is_close : {p q : Pool} → Step p q → Bool
is_close closing_begins = true
is_close (entering job q e) = false
is_close (enqueueing before job behind e l) = false
is_close (giving_up before job behind e) = false
is_close (taking before job behind rest e k) = false
is_close (ending before job behind e) = false
is_close (worker_stopping before behind e d) = false
is_close (closing_drained c z) = false
is_close (closing_ends c f) = false

-- Once the pool is closed every step but a further call of Close lowers the work that is left.
pub Step-left_to_do :
    {p q : Pool} (s : Step p q) → p.closed ≡ true → is_close s ≡ false → left_to_do q < left_to_do p
unfolding is_close alive busy left_to_do enqueue give_up take_job end_job stop_worker close_done
    end_close begin_close
Step-left_to_do {p} (entering job q e) c n = absurd (true-false (sym c ∙ (enter-some p q job e).0))
Step-left_to_do {p} (enqueueing before job behind e l) c n = omega (
  arith,
  ap length e,
  length-append before (job ∷ behind),
  length-append before behind,
  length-append p.queue (job ∷ []),
)
Step-left_to_do {p} (giving_up before job behind e) c n =
    omega (arith, ap length e, length-append before (job ∷ behind), length-append before behind)
Step-left_to_do {p} (taking before job behind rest e k) c n =
    omega (arith, ap length k, around p.workers before idle (running job) behind e)
Step-left_to_do {p} (ending before job behind e) c n =
    omega (arith, around p.workers before (running job) idle behind e)
Step-left_to_do {p} (worker_stopping before behind e d) c n =
    omega (arith, around p.workers before idle stopped behind e)
Step-left_to_do {p} closing_begins c n = cc
Step-left_to_do {p} (closing_drained k z) c n = omega (arith, ap stages_left k)
Step-left_to_do {p} (closing_ends k f) c n = omega (arith, ap stages_left k)
