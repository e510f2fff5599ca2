-- ===== src/Dispatch/Invariant.antt =====
-- internal/dispatch/dispatch.go: the pool's counter, its bound, and the jobs that Close waits for.
use prukka.Base.{
  ℕ, ◌+◌, ◌-◌, ◌≤◌, ◌≡◌, refl, sym, ap, subst, ◌∙◌, Bool, true, false, ◌||◌, none, some, List, [],
  ◌∷◌, ◌++◌, ltb, Bool-cases, if-split, if_false, none-some, some-inj, inl, inr, arith, length,
  length-append,
}
use prukka.Dispatch.{
  Worker, idle, stopped, running, Closing, not_called, draining, stopping, returned, Pool, new_pool,
  enter, enqueue, give_up, take_job, end_job, stop_worker, begin_close, close_done, end_close, Step,
  entering, enqueueing, giving_up, taking, ending, worker_stopping, closing_begins, closing_drained,
  closing_ends, Reaches, here, next,
}
use prukka.Dispatch.Counting.{
  count, count_running, busy, count-append, count_running-append, busy-append, count_running-idle,
  busy-idle,
}

-- What each stage of Close means for the flags and for the counter.
abbrev pub Stage : Closing → Bool → Bool → ℕ → Type 0
Stage not_called closed done n = (closed ≡ false) × (done ≡ false)
Stage draining closed done n = (closed ≡ true) × (done ≡ false)
Stage stopping closed done n = (closed ≡ true) × (n ≡ 0) × (done ≡ true)
Stage returned closed done n = (closed ≡ true) × (n ≡ 0) × (done ≡ true)

Stage-open : (c : Closing) (done : Bool) (n m : ℕ) → Stage c false done n → Stage c false done m
Stage-open not_called done n m h = h
Stage-open draining done n m h = cc (h.0)
Stage-open stopping done n m h = cc (h.0)
Stage-open returned done n m h = cc (h.0)

Stage-less :
    (c : Closing) (closed done : Bool) (n : ℕ) → Stage c closed done n → Stage c closed done (n - 1)
Stage-less not_called closed done n h = h
Stage-less draining closed done n h = h
Stage-less stopping closed done n h = (h.0, omega (arith, h.1), h.2)
Stage-less returned closed done n h = (h.0, omega (arith, h.1), h.2)

pub record Inv (p : Pool) : Type 0 where
  pub balance : p.inflight ≡ length p.waiting + length p.queue + busy p.workers
  pub tally :
      (job : ℕ)
      → count job p.accepted ≡ count job p.queue + count_running job p.workers + count job p.ran
  pub room : length p.queue ≤ p.capacity
  pub stage : Stage p.closing p.closed p.done p.inflight

-- A submitter that gets in found the pool open.
pub enter-some :
    (p q : Pool) (job : ℕ)
    → enter p job ≡ some q
    → (p.closed ≡ false)
      × (record p { inflight = p.inflight + 1; waiting = p.waiting ++ (job ∷ []) } ≡ q)
unfolding enter
enter-some p q job e = elim (Bool-cases p.closed) [
  | inl c ↦ absurd (none-some (rw (c, enter) at e))
  | inr c ↦ (
    c,
    some-inj (
        if_false p.closed c none
          (some (record p { inflight = p.inflight + 1; waiting = p.waiting ++ (job ∷ []) }))
        ∙ e),
  )
]

entered-Inv :
    (p : Pool) (job : ℕ)
    → p.closed ≡ false
    → Inv p
    → Inv (record p { inflight = p.inflight + 1; waiting = p.waiting ++ (job ∷ []) })
entered-Inv p job e i = record {
  balance = omega (arith, i.balance, length-append p.waiting (job ∷ []));
  tally = i.tally;
  room = i.room;
  stage =
      subst (λ c. Stage p.closing c p.done (p.inflight + 1)) (sym e)
        (Stage-open p.closing p.done p.inflight (p.inflight + 1)
          (subst (λ c. Stage p.closing c p.done p.inflight) e i.stage));
}

-- An open pool has not been closed yet, and Close stands where its stage says.
Stage-begins : (c : Closing) (done : Bool) (n : ℕ) → Stage c false done n → done ≡ false
Stage-begins not_called done n h = h.1
Stage-begins draining done n h = h.1
Stage-begins stopping done n h = cc (h.0)
Stage-begins returned done n h = cc (h.0)

begin_close-Inv : (p : Pool) → Inv p → Inv (begin_close p)
unfolding begin_close
begin_close-Inv p i =
    if-split Inv p.closed p (record p { closed = true; closing = draining }) (λ c. i)
      (λ c. record {
        balance = i.balance;
        tally = i.tally;
        room = i.room;
        stage = (
          refl,
          Stage-begins p.closing p.done p.inflight
              (subst (λ b. Stage p.closing b p.done p.inflight) c i.stage),
        );
      })

-- How the parts of a list of waiting submitters, or of workers, add up.
length-around :
    {A : Type 0} (xs before : List A) (x : A) (behind : List A)
    → xs ≡ before ++ (x ∷ behind)
    → length xs ≡ length (before ++ behind) + 1
length-around xs before x behind e =
    omega (arith, ap length e, length-append before (x ∷ behind), length-append before behind)

busy-around :
    (ws before : List Worker) (w : Worker) (behind : List Worker)
    → ws ≡ before ++ (w ∷ behind)
    → busy ws ≡ busy before + busy (w ∷ behind)
busy-around ws before w behind e = omega (arith, ap busy e, busy-append before (w ∷ behind))

running-around :
    (job : ℕ) (ws before : List Worker) (w : Worker) (behind : List Worker)
    → ws ≡ before ++ (w ∷ behind)
    → count_running job ws ≡ count_running job before + count_running job (w ∷ behind)
running-around job ws before w behind e =
    omega (arith, ap (count_running job) e, count_running-append job before (w ∷ behind))

pub Step-Inv : {p q : Pool} → Step p q → Inv p → Inv q
unfolding count count_running busy enqueue give_up take_job end_job stop_worker close_done end_close
Step-Inv {p} (entering job q e) i =
    let (open_yet, same) = enter-some p q job e in subst Inv same (entered-Inv p job open_yet i)
Step-Inv {p} (enqueueing before job behind e l) i = record {
  balance = omega (
    arith,
    i.balance,
    length-around p.waiting before job behind e,
    length-append p.queue (job ∷ []),
  );
  tally = λ k.
      omega
        (arith, i.tally k, count-append k p.queue (job ∷ []), count-append k p.accepted (job ∷ []));
  room = omega (arith, length-append p.queue (job ∷ []));
  stage = i.stage;
}
Step-Inv {p} (giving_up before job behind e) i = record {
  balance = omega (arith, i.balance, length-around p.waiting before job behind e);
  tally = i.tally;
  room = i.room;
  stage = Stage-less p.closing p.closed p.done p.inflight i.stage;
}
Step-Inv {p} (taking before job behind rest e k) i = record {
  balance = omega (
    arith,
    i.balance,
    ap length k,
    busy-around p.workers before idle behind e,
    busy-append before (running job ∷ behind),
  );
  tally = λ j. omega (
    arith,
    i.tally j,
    ap (count j) k,
    running-around j p.workers before idle behind e,
    count_running-append j before (running job ∷ behind),
  );
  room = omega (arith, i.room, ap length k);
  stage = i.stage;
}
Step-Inv {p} (ending before job behind e) i = record {
  balance = omega (
    arith,
    i.balance,
    busy-around p.workers before (running job) behind e,
    busy-append before (idle ∷ behind),
  );
  tally = λ j. omega (
    arith,
    i.tally j,
    running-around j p.workers before (running job) behind e,
    count_running-append j before (idle ∷ behind),
    count-append j p.ran (job ∷ []),
  );
  room = i.room;
  stage = Stage-less p.closing p.closed p.done p.inflight i.stage;
}
Step-Inv {p} (worker_stopping before behind e d) i = record {
  balance = omega (
    arith,
    i.balance,
    busy-around p.workers before idle behind e,
    busy-append before (stopped ∷ behind),
  );
  tally = λ j. omega (
    arith,
    i.tally j,
    running-around j p.workers before idle behind e,
    count_running-append j before (stopped ∷ behind),
  );
  room = i.room;
  stage = i.stage;
}
Step-Inv {p} closing_begins i = begin_close-Inv p i
Step-Inv {p} (closing_drained c z) i = record {
  balance = i.balance;
  tally = i.tally;
  room = i.room;
  stage = ((subst (λ k. Stage k p.closed p.done p.inflight) c i.stage).0, z, refl);
}
Step-Inv {p} (closing_ends c s) i = record {
  balance = i.balance;
  tally = i.tally;
  room = i.room;
  stage = subst (λ k. Stage k p.closed p.done p.inflight) c i.stage;
}

new_pool-Inv : (workers queue : ℕ) (p : Pool) → new_pool workers queue ≡ some p → Inv p
unfolding new_pool count
new_pool-Inv workers queue p e = elim (Bool-cases (ltb workers 1 || ltb queue 1)) [
  | inl c ↦ absurd (none-some (rw (c, new_pool) at e))
  | inr c ↦ subst Inv (some-inj (rw (c, new_pool) at e)) (record {
    balance = omega (arith, busy-idle workers);
    tally = λ job. omega (arith, count_running-idle job workers);
    room = omega arith;
    stage = (refl, refl);
  })
]

pub Reaches-Inv :
    {start p : Pool} (workers queue : ℕ)
    → new_pool workers queue ≡ some start
    → Reaches start p
    → Inv p
Reaches-Inv {start} workers queue e here = new_pool-Inv workers queue start e
Reaches-Inv workers queue e (next r s) = Step-Inv s (Reaches-Inv workers queue e r)

-- When Close has returned, nothing is queued, running or waiting for room.
pub record Drained (p : Pool) : Type 0 where
  pub no_queue : p.queue ≡ []
  pub no_waiting : p.waiting ≡ []
  pub none_busy : busy p.workers ≡ 0
  pub all_ran : (job : ℕ) → count job p.accepted ≡ count job p.ran

zero-nil : {A : Type 0} (xs : List A) → length xs ≡ 0 → xs ≡ []
zero-nil [] h = refl
zero-nil (x ∷ xs) h = absurd (omega arith)

not_busy-running : (job : ℕ) (ws : List Worker) → busy ws ≡ 0 → count_running job ws ≡ 0
unfolding busy count_running
not_busy-running job [] h = refl
not_busy-running job (idle ∷ ws) h = not_busy-running job ws h
not_busy-running job (stopped ∷ ws) h = not_busy-running job ws h
not_busy-running job (running k ∷ ws) h = absurd (omega arith)

-- Whatever the order in which submitters, workers and Close move, when Close has returned every job that
-- was accepted has run to its end, as often as it was accepted, and nothing is queued, running or waiting.
pub Reaches-Drained :
    {start p : Pool} (workers queue : ℕ)
    → new_pool workers queue ≡ some start
    → Reaches start p
    → p.closing ≡ returned
    → Drained p
Reaches-Drained {p} workers queue e r c =
    let i = Reaches-Inv workers queue e r in
    let none_left : p.inflight ≡ 0 =
      (subst (λ k. Stage k p.closed p.done p.inflight) c i.stage).1 in
    let no_queue = zero-nil p.queue (omega (arith, i.balance, none_left)) in
    let quiet : busy p.workers ≡ 0 = omega (arith, i.balance, none_left) in
    record {
      no_queue = no_queue;
      no_waiting = zero-nil p.waiting (omega (arith, i.balance, none_left));
      none_busy = quiet;
      all_ran = λ job.
          unfold count in
          omega (arith, i.tally job, ap (count job) no_queue, not_busy-running job p.workers quiet);
    }
