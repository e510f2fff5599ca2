-- ===== src/Dispatch/Tests.antt =====
-- internal/dispatch/dispatch.go: one job through a pool of one worker, up to the return of Close.
use prukka.Base.{◌≡◌, refl, true, false, none, some, [], ◌∷◌, arith}
use prukka.Dispatch.{
  Worker, idle, not_called, draining, returned, Pool, new_pool, enter, enqueue, take_job, end_job,
  stop_worker, begin_close, close_done, end_close, metrics, entering, enqueueing, taking, ending,
  worker_stopping, closing_begins, closing_drained, closing_ends, Reaches, here, next,
}
use prukka.Dispatch.Invariant.{Drained, Reaches-Drained}
use prukka.Dispatch.Return.{ClosesDown, Reaches-ClosesDown}

no_workers : new_pool 0 4 ≡ none
unfolding new_pool
no_workers = refl

abbrev fresh : Pool
fresh = record {
  capacity = 1;
  queue = [];
  waiting = [];
  workers = idle ∷ [];
  closed = false;
  done = false;
  inflight = 0;
  closing = not_called;
  accepted = [];
  ran = [];
}

fresh_lem : new_pool 1 1 ≡ some fresh
unfolding new_pool
fresh_lem = refl

abbrev entered : Pool
entered = record fresh { inflight = 1; waiting = 7 ∷ [] }

abbrev queued : Pool
queued = record fresh { inflight = 1; queue = 7 ∷ []; accepted = 7 ∷ [] }

metrics_runs : metrics queued ≡ (1, 1)
unfolding metrics
metrics_runs = refl

abbrev ended : Pool
ended = record fresh { accepted = 7 ∷ []; ran = 7 ∷ [] }

to_queued : Reaches fresh queued
unfolding enter enqueue
to_queued = next (next here (entering 7 entered refl)) (enqueueing [] 7 [] refl (omega arith))

to_ended : Reaches fresh ended
unfolding take_job end_job
to_ended = next (next to_queued (taking [] 7 [] [] refl refl)) (ending [] 7 [] refl)

abbrev closing_pool : Pool
closing_pool = record queued { closed = true; closing = draining }

to_closing : Reaches fresh closing_pool
unfolding begin_close
to_closing = next to_queued closing_begins

abbrev closed_pool : Pool
closed_pool = record ended {
  closed = true;
  done = true;
  closing = returned;
  workers = Worker.stopped ∷ [];
}

to_closed : Reaches fresh closed_pool
unfolding begin_close close_done stop_worker end_close
to_closed =
    next
      (next (next (next to_ended closing_begins) (closing_drained refl refl))
        (worker_stopping [] [] refl refl))
      (closing_ends refl refl)

Reaches-Drained_example : Drained closed_pool
Reaches-Drained_example = Reaches-Drained 1 1 fresh_lem to_closed refl

Reaches-ClosesDown_example : ClosesDown closing_pool
Reaches-ClosesDown_example = Reaches-ClosesDown 1 1 fresh_lem to_closing refl
