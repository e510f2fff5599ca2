-- ===== src/Dispatch.antt =====
-- internal/dispatch/dispatch.go: the bounded worker pool, as the steps that its goroutines take between the
-- places where they wait. A job is a number, and may be submitted more than once.
pub mod Counting
pub mod Invariant
pub mod Progress
pub mod Return
mod Tests
use prukka.Base.{
  ℕ, zero, suc, ◌+◌, ◌-◌, ◌≤◌, ◌<◌, ◌≡◌, refl, Bool, true, false, ◌&&◌, ◌||◌, Option, none, some,
  List, [], ◌∷◌, ◌++◌, if◌then◌else◌, ltb, leb, ◌==◌, length, replicate,
}

pub data Worker : Type 0 where
  idle stopped : Worker
  running : ℕ → Worker

-- Where Close stands: not called, waiting for the accepted jobs, waiting for the workers, or returned.
pub data Closing : Type 0 where
  not_called draining stopping returned : Closing

-- `waiting` are the submitters that have passed the closed test and wait for room. `accepted` and `ran`
-- record the jobs that were queued and the jobs that ended, and no code reads them.
pub record Pool : Type 0 where
  pub capacity : ℕ
  pub queue : List ℕ
  pub waiting : List ℕ
  pub workers : List Worker
  pub closed : Bool
  pub done : Bool
  pub inflight : ℕ
  pub closing : Closing
  pub accepted : List ℕ
  pub ran : List ℕ

-- New; `none` is the panic.
unfoldable pub new_pool : ℕ → ℕ → Option Pool
new_pool workers queue =
    if ltb workers 1 || ltb queue 1
    then none
    else some (record {
      capacity = queue;
      queue = [];
      waiting = [];
      workers = replicate workers idle;
      closed = false;
      done = false;
      inflight = 0;
      closing = not_called;
      accepted = [];
      ran = [];
    })

-- Submit up to its select: `none` is ErrClosed.
unfoldable pub enter : Pool → ℕ → Option Pool
enter p job =
    if p.closed
    then none
    else some (record p { inflight = p.inflight + 1; waiting = p.waiting ++ (job ∷ []) })

-- A submitter that leaves its select, among the ones before and behind it.
abbrev pub left : Pool → List ℕ → List ℕ → Pool
left p before behind = record p { waiting = before ++ behind }

-- case p.queue <- fn.
unfoldable pub enqueue : Pool → List ℕ → ℕ → List ℕ → Pool
enqueue p before job behind = record (left p before behind) {
  queue = p.queue ++ (job ∷ []);
  accepted = p.accepted ++ (job ∷ []);
}

-- case <-ctx.Done().
unfoldable pub give_up : Pool → List ℕ → List ℕ → Pool
give_up p before behind = record (left p before behind) { inflight = p.inflight - 1 }

-- case fn := <-p.queue, in the worker between `before` and `behind`.
unfoldable pub take_job : Pool → List Worker → ℕ → List Worker → List ℕ → Pool
take_job p before job behind rest = record p {
  queue = rest;
  workers = before ++ (running job ∷ behind);
}

-- The end of `run`.
unfoldable pub end_job : Pool → List Worker → ℕ → List Worker → Pool
end_job p before job behind = record p {
  workers = before ++ (idle ∷ behind);
  inflight = p.inflight - 1;
  ran = p.ran ++ (job ∷ []);
}

-- case <-p.done.
unfoldable pub stop_worker : Pool → List Worker → List Worker → Pool
stop_worker p before behind = record p { workers = before ++ (stopped ∷ behind) }

-- Close up to its first wait; a call that finds the pool closed returns at once.
unfoldable pub begin_close : Pool → Pool
begin_close p = if p.closed then p else record p { closed = true; closing = draining }

unfoldable pub close_done : Pool → Pool
close_done p = record p { done = true; closing = stopping }

unfoldable pub end_close : Pool → Pool
end_close p = record p { closing = returned }

abbrev pub all_stopped : List Worker → Bool
all_stopped [] = true
all_stopped (stopped ∷ ws) = all_stopped ws
all_stopped (idle ∷ ws) = false
all_stopped (running job ∷ ws) = false

unfoldable pub metrics : Pool → ℕ × ℕ
metrics p = (length p.queue, p.capacity)

-- A submitter that is refused and a Close that finds the pool closed leave it as it is.
pub data Step (p : Pool) : Pool → Type 0 where
  entering : (job : ℕ) (q : Pool) → enter p job ≡ some q → Step p q
  enqueueing :
      (before : List ℕ) (job : ℕ) (behind : List ℕ)
      → p.waiting ≡ before ++ (job ∷ behind)
      → length p.queue < p.capacity
      → Step p (enqueue p before job behind)
  giving_up :
      (before : List ℕ) (job : ℕ) (behind : List ℕ)
      → p.waiting ≡ before ++ (job ∷ behind)
      → Step p (give_up p before behind)
  taking :
      (before : List Worker) (job : ℕ) (behind : List Worker) (rest : List ℕ)
      → p.workers ≡ before ++ (idle ∷ behind)
      → p.queue ≡ job ∷ rest
      → Step p (take_job p before job behind rest)
  ending :
      (before : List Worker) (job : ℕ) (behind : List Worker)
      → p.workers ≡ before ++ (running job ∷ behind)
      → Step p (end_job p before job behind)
  worker_stopping :
      (before behind : List Worker)
      → p.workers ≡ before ++ (idle ∷ behind)
      → p.done ≡ true
      → Step p (stop_worker p before behind)
  closing_begins : Step p (begin_close p)
  closing_drained : p.closing ≡ draining → p.inflight ≡ 0 → Step p (close_done p)
  closing_ends : p.closing ≡ stopping → all_stopped p.workers ≡ true → Step p (end_close p)

pub data Reaches (start : Pool) : Pool → Type 0 where
  here : Reaches start start
  next : {p q : Pool} → Reaches start p → Step p q → Reaches start q
