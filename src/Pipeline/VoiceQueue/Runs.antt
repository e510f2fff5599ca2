-- ===== src/Pipeline/VoiceQueue/Runs.antt =====
-- Every interleaving of the queue's methods: a schedule is a list of operations, each one step under
-- the queue's mutex.
use prukka.Base.{ℕ, ◌≡◌, Option, none, some, List, [], ◌∷◌, ◌++◌}
use prukka.Pipeline.Units.{Sample}
use prukka.Pipeline.VoiceQueue.{
  VoiceQueue, cursor, append, finish, next_into, begin_playout, release_playout, seal_playout,
}
use prukka.Pipeline.VoiceQueue.Timeline.{Timeline}

pub data Op : Type 0 where
  hand_out finishes seals : Op
  appends : ℕ → List Sample → Op
  pulls : ℕ → ℕ → Op
  begins releases : ℕ → Op

-- `none` is a panic.
unfoldable pub step : Op → VoiceQueue → Option VoiceQueue
unfolding cursor append finish next_into begin_playout release_playout seal_playout
step hand_out q = some (cursor q)
step finishes q = some (finish q)
step seals q = seal_playout q
step (appends at samples) q = some (append at samples q).0
step (pulls i n) q = some (next_into i n q).0
step (begins i) q = some (begin_playout i q).0
step (releases i) q = release_playout i q

abbrev pub bind_queue : Option VoiceQueue → (VoiceQueue → Option VoiceQueue) → Option VoiceQueue
bind_queue none f = none
bind_queue (some q) f = f q

unfoldable pub run : List Op → VoiceQueue → Option VoiceQueue
unfolding step
run [] q = some q
run (o ∷ os) q = bind_queue (step o q) (run os)

-- All that the schedule enqueues, in order: the specification's whole state.
abbrev pub history : List Op → List Sample
history [] = []
history (appends at samples ∷ os) = samples ++ history os
history (_ ∷ os) = history os

-- The operations other than `append` leave the shared timeline alone.
abbrev SameBuffer : VoiceQueue → VoiceQueue → Type 0
SameBuffer q q' = (q'.buf ≡ q.buf) × (q'.clock ≡ q.clock)
