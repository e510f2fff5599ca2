-- ===== src/Session/Lanes/Tests.antt =====
-- A lane of internal/core/session/runtime.go that starts, is stopped, and is replaced.
use prukka.Base.{◌+◌, ◌<◌, ◌≡◌, refl, true, false, none, some, [], ◌∷◌, arith, codes}
use prukka.Base.Int.{pos}
use prukka.Session.Model.{unset, Session, all_dub_langs}
use prukka.Session.Store.{word}
use prukka.Session.Lanes.{
  waiting, started, Lane, Runtime, new_runtime, lane_disposition, launch, change, moved, stop,
}
use prukka.Session.Lanes.{failed_retry_delay}
use prukka.Session.Lanes.Exclusion.{launches, stops, starts, Reaches, at_rest, onward}
use prukka.Session.Lanes.Steps.{Reaches-waits}

abbrev show : Session
show = record {
  slug = codes "show";
  profile = codes "broadcast";
  pair = [];
  source_lang = [];
  subs = [];
  dub = [];
  bed = [];
  source = record { url = codes "file:///a"; video_dir = []; delay = pos 0 };
  runtime = record { state = unset; error = []; gen = 0 };
  langs = codes "it" ∷ [];
  dub_langs = all_dub_langs;
  delay = pos 0;
  revision = 1;
}

abbrev first : Lane
first = record { slug = codes "show"; prev = none; phase = waiting; cancelled = false }

-- Launched, started, stopped, and launched again with a new definition.
abbrev running_on : Runtime
running_on = change (moved started) 1 (launch 0 show new_runtime)

abbrev replaced : Runtime
replaced = launch 9 (record show { revision = 2 }) (stop (codes "show") running_on)

launched_first : (launch 0 show new_runtime).lanes 1 ≡ some first
unfolding launch new_runtime lane_disposition
launched_first = refl

abbrev second : Lane
second = record { slug = codes "show"; prev = some 1; phase = waiting; cancelled = false }

-- The replacement waits for the first lane, which still runs.
second_waits : replaced.lanes 2 ≡ some second
unfolding launch new_runtime lane_disposition stop
second_waits = refl

first_runs : replaced.lanes 1 ≡ some (record first { phase = started; cancelled = true })
unfolding launch new_runtime lane_disposition stop
first_runs = refl

small : (new_runtime.next_gen + 1 < word) × ((stop (codes "show") running_on).next_gen + 1 < word)
unfolding launch new_runtime lane_disposition stop
small = (omega arith, omega arith)

to_replaced : Reaches new_runtime replaced
to_replaced =
    onward
      (onward
        (onward (onward at_rest (launches 0 show small.0))
          (starts 1 first launched_first refl refl (λ q e. cc e)))
        (stops (codes "show")))
      (launches 9 (record show { revision = 2 }) small.1)

Reaches-waits_example : second.phase ≡ waiting
Reaches-waits_example =
    Reaches-waits replaced 1 2 (record first { phase = started; cancelled = true }) second
      to_replaced first_runs second_waits refl (omega arith) refl

-- The third retry waits for 80 seconds and its share of jitter.
third_retry : failed_retry_delay 4242 3 ≡ 83872000000
unfolding failed_retry_delay
third_retry = refl
