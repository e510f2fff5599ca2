-- ===== src/Dispatch/Return.antt =====
-- internal/dispatch/dispatch.go: the steps that are possible until Close returns.
use prukka.Base.{
  ℕ, zero, suc, ◌≤◌, ◌<◌, ◌≡◌, ◌⊎◌, refl, sym, ap, subst, ◌∙◌, true, false, some, List, [], ◌∷◌,
  ◌++◌, Bool-cases, if-split, ltb, inl, inr, arith, length,
}
use prukka.Dispatch.{
  Worker, idle, stopped, running, Closing, not_called, draining, stopping, returned, Pool, new_pool,
  all_stopped, close_done, end_close, Step, entering, giving_up, closing_begins, give_up,
  begin_close, enqueueing, taking, ending, worker_stopping, closing_drained, closing_ends, Reaches,
  next, here, enqueue, take_job, end_job, stop_worker,
}
use prukka.Dispatch.Counting.{busy}
use prukka.Dispatch.Invariant.{Inv, Stage, Step-Inv, Reaches-Inv, enter-some}
use prukka.Dispatch.Progress.{
  alive, Shape, Step-Shape, Reaches-Shape, left_to_do, Step-left_to_do, is_close, true-false,
}

find_running :
    (ws : List Worker)
    → 0 < busy ws
    → (before : List Worker) × (job : ℕ) × (behind : List Worker) × (ws
        ≡ before ++ (running job ∷ behind))
unfolding busy
find_running [] h = absurd (omega arith)
find_running (running job ∷ ws) h = ([], job, ws, refl)
find_running (idle ∷ ws) h =
    let (before, job, behind, e) = find_running ws h in
    (idle ∷ before, job, behind, ap (◌∷◌ idle) e)
find_running (stopped ∷ ws) h =
    let (before, job, behind, e) = find_running ws h in
    (stopped ∷ before, job, behind, ap (◌∷◌ stopped) e)

find_idle :
    (ws : List Worker)
    → busy ws ≡ 0
    → 0 < alive ws
    → (before : List Worker) × (behind : List Worker) × (ws ≡ before ++ (idle ∷ behind))
unfolding busy alive
find_idle [] b h = absurd (omega arith)
find_idle (running job ∷ ws) b h = absurd (omega arith)
find_idle (idle ∷ ws) b h = ([], ws, refl)
find_idle (stopped ∷ ws) b h =
    let (before, behind, e) = find_idle ws b h in (stopped ∷ before, behind, ap (◌∷◌ stopped) e)

some_alive : (ws : List Worker) → all_stopped ws ≡ false → 0 < alive ws
unfolding alive
some_alive [] h = cc
some_alive (running job ∷ ws) h = omega arith
some_alive (idle ∷ ws) h = omega arith
some_alive (stopped ∷ ws) h = some_alive ws h

-- A step that lowers the work that is left.
abbrev Move : Pool → Type 0
Move p = (q : Pool) × (Step p q) × (left_to_do q < left_to_do p)

lowers : {p q : Pool} (s : Step p q) → p.closed ≡ true → is_close s ≡ false → Move p
lowers {q} s c n = (q, s, Step-left_to_do s c n)

drain-Move : (p : Pool) → Inv p → Shape p → p.closing ≡ draining → Move p
unfolding is_close
drain-Move p i s k = drain (Bool-cases (ltb 0 (busy p.workers))) p.queue refl p.waiting refl
  where
    flags : Stage draining p.closed p.done p.inflight
    flags = subst (λ c. Stage c p.closed p.done p.inflight) k i.stage

    drain :
        ((ltb 0 (busy p.workers) ≡ true) ⊎ (ltb 0 (busy p.workers) ≡ false))
        → (queue : List ℕ) → p.queue ≡ queue
        → (waiting : List ℕ) → p.waiting ≡ waiting
        → Move p
    drain (inl b) queue eq waiting ew =
        let (before, job, behind, e) = find_running p.workers (ground arith) in
        lowers (ending before job behind e) flags.0 refl
    drain (inr b) (job ∷ queue) eq waiting ew =
        let (before, behind, e) =
          find_idle p.workers (ground arith) (omega (arith, s.some_worker, s.unstopped flags.1)) in
        lowers (taking before job behind queue e eq) flags.0 refl
    drain (inr b) [] eq (job ∷ waiting) ew =
        lowers (enqueueing [] job waiting ew (omega (arith, ap length eq, s.some_room))) flags.0
          refl
    drain (inr b) [] eq [] ew =
        lowers (closing_drained k (ground (arith, i.balance, ap length eq, ap length ew))) flags.0
          refl

stop-Move : (p : Pool) → Inv p → Shape p → p.closing ≡ stopping → Move p
unfolding is_close
stop-Move p i s k = elim (Bool-cases (all_stopped p.workers)) [
  | inl e ↦ lowers (closing_ends k e) flags.0 refl
  | inr e ↦
      let (before, behind, at) =
        find_idle p.workers (omega (arith, i.balance, flags.1)) (some_alive p.workers e) in
      lowers (worker_stopping before behind at flags.2) flags.0 refl
]
  where
    flags : Stage stopping p.closed p.done p.inflight
    flags = subst (λ c. Stage c p.closed p.done p.inflight) k i.stage

closed-Move : (p : Pool) → Inv p → Shape p → p.closed ≡ true → (p.closing ≡ returned) ⊎ Move p
closed-Move p i s c = at p.closing refl
  where
    at : (k : Closing) → p.closing ≡ k → (p.closing ≡ returned) ⊎ Move p
    at not_called e =
        absurd (true-false (sym c ∙ (subst (λ k. Stage k p.closed p.done p.inflight) e i.stage).0))
    at draining e = inr (drain-Move p i s e)
    at stopping e = inr (stop-Move p i s e)
    at returned e = inl e

-- The pool stays closed.
Step-closed : {p q : Pool} → Step p q → p.closed ≡ true → q.closed ≡ true
unfolding enqueue take_job end_job stop_worker close_done end_close give_up begin_close
Step-closed {p} (entering job q e) c = absurd (true-false (sym c ∙ (enter-some p q job e).0))
Step-closed (enqueueing before job behind e l) c = c
Step-closed (giving_up before job behind e) c = c
Step-closed (taking before job behind rest e k) c = c
Step-closed (ending before job behind e) c = c
Step-closed (worker_stopping before behind e d) c = c
Step-closed {p} closing_begins c =
    if-split (λ q. q.closed ≡ true) p.closed p (record p { closed = true; closing = draining })
      (λ e. e) (λ e. refl)
Step-closed (closing_drained k z) c = c
Step-closed (closing_ends k f) c = c

returns_within :
    {start : Pool} (n : ℕ) (p : Pool)
    → left_to_do p ≤ n
    → Inv p
    → Shape p
    → p.closed ≡ true
    → Reaches start p
    → (q : Pool) × (Reaches start q) × (q.closing ≡ returned)
returns_within zero p l i s c r = elim (closed-Move p i s c) [
  | inl e ↦ (p, r, e)
  | inr (q, step, less) ↦ absurd (omega arith)
]
returns_within (suc n) p l i s c r = elim (closed-Move p i s c) [
  | inl e ↦ (p, r, e)
  | inr (q, step, less) ↦
      returns_within n q (omega arith) (Step-Inv step i) (Step-Shape step i s) (Step-closed step c)
        (next r step)
]

-- The measure of the work left bounds every run of a closed pool.
pub record ClosesDown (p : Pool) : Type 0 where
  pub falls : (q : Pool) (s : Step p q) → (is_close s ≡ true) ⊎ (left_to_do q < left_to_do p)
  pub can_return : (q : Pool) × (Reaches p q) × (q.closing ≡ returned)

-- From every state in which Close has been called, a run of the pool's own steps leads to its return,
-- and each of those steps, whichever goroutine takes it, lowers the work that is left: Close cannot wait
-- for ever while the goroutines go on.
pub Reaches-ClosesDown :
    {start p : Pool} (workers queue : ℕ)
    → new_pool workers queue ≡ some start
    → Reaches start p
    → p.closed ≡ true
    → ClosesDown p
Reaches-ClosesDown {p} workers queue e r c = record {
  falls =
      λ q s. elim (Bool-cases (is_close s)) [ inl e ↦ inl e | inr e ↦ inr (Step-left_to_do s c e) ];
  can_return =
      returns_within (left_to_do p) p (omega arith) (Reaches-Inv workers queue e r)
        (Reaches-Shape workers queue e r) c here;
}
