-- ===== src/Pipeline/VoiceQueue/Tests.antt =====
-- Runs of the voice queue of internal/core/pipeline/voicequeue.go, and its theorems at concrete queues.
use prukka.Base.{ℕ, ◌+◌, ◌≡◌, refl, true, false, some, List, [], ◌∷◌, ◌++◌, inr, arith}
use prukka.Base.Int.{pos}
use prukka.Pipeline.Units.{Sample, duration_for}
use prukka.Pipeline.VoiceQueue.{VoiceCursor, VoiceQueue, new_voice_queue, append, pull}
use prukka.Pipeline.VoiceQueue.Timeline.{Timeline}
use prukka.Pipeline.VoiceQueue.Positions.{PlaysAt, append-keeps_unplayed}
use prukka.Pipeline.VoiceQueue.Runs.{
  Op, hand_out, finishes, seals, appends, pulls, begins, releases, run,
}

-- A cap of four samples; two sinks, of which one starts late and one leaves before the end.
abbrev schedule : List Op
schedule =
    hand_out
    ∷ hand_out
    ∷ begins 0
    ∷ appends 7 (pos 1 ∷ pos 2 ∷ pos 3 ∷ [])
    ∷ pulls 0 2
    ∷ begins 1
    ∷ appends 9 (pos 4 ∷ pos 5 ∷ pos 6 ∷ [])
    ∷ releases 1
    ∷ seals
    ∷ pulls 0 3
    ∷ finishes
    ∷ releases 0
    ∷ []

-- The late sink's backlog passes the cap, so two samples are shed for both.
after_schedule :
    run schedule (new_voice_queue 250000)
    ≡ some (record {
      cursors =
          record { head = 3; registered = true; accepted = true; released = true; listed = false }
          ∷ record { head = 0; registered = true; accepted = true; released = true; listed = false }
          ∷ [];
      group = record { active = 0; sealed = true; closed = true };
      buf = pos 3 ∷ pos 4 ∷ pos 5 ∷ pos 6 ∷ [];
      clock = 125000;
      max_lead = 4;
      finished = true;
    })
unfolding run new_voice_queue
after_schedule = refl

abbrev reader : VoiceCursor
reader = record { head = 1; registered = true; accepted = true; released = false; listed = true }

-- Two samples are gone, one of the three kept has been played.
abbrev playing : VoiceQueue
playing = record {
  cursors = reader ∷ [];
  group = record { active = 1; sealed = false; closed = false };
  buf = pos 3 ∷ pos 4 ∷ pos 5 ∷ [];
  clock = 125000;
  max_lead = 4;
  finished = false;
}

abbrev past : List Sample
past = pos 1 ∷ pos 2 ∷ pos 3 ∷ pos 4 ∷ pos 5 ∷ []

playing-Timeline : Timeline playing past 2
unfolding duration_for
playing-Timeline = record { within = omega arith; contents = refl; stamped = refl }

padded_window : (pull reader 3 playing).1.samples ≡ pos 4 ∷ pos 5 ∷ pos 0 ∷ []
unfolding pull
padded_window = refl

append-keeps_unplayed_example :
    (k n : ℕ) × Timeline (append 0 (pos 6 ∷ []) playing).0 (past ++ pos 6 ∷ []) k
    × PlaysAt (append 0 (pos 6 ∷ []) playing).0 0 n
    × (k + n ≡ 2 + 1)
append-keeps_unplayed_example =
    append-keeps_unplayed 0 (pos 6 ∷ []) playing past 2 0 1 playing-Timeline
      (reader, refl, refl, refl) (inr (omega arith))
