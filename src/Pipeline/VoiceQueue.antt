-- ===== src/Pipeline/VoiceQueue.antt =====
-- internal/core/pipeline/voicequeue.go: the playout of a call dub. Each method runs under the queue's
-- mutex and is one step. A cursor is named by its index among all cursors that the queue handed out;
-- its field `listed` says whether the map `q.cursors` holds it.
pub mod Invariant
pub mod Cursors
pub mod Timeline
pub mod Positions
pub mod Runs
mod Tests
use prukka.Base.{
  ℕ, zero, suc, ◌+◌, ◌-◌, ◌≤◌, ◌<◌, ◌≡◌, refl, min, max, Bool, true, false, not, ◌&&◌, ◌||◌, Option,
  none, some, List, [], ◌∷◌, ◌++◌, map, arith, ltb, leb, ◌==◌, if◌then◌else◌, length, get_elem?,
  set, take, drop, replicate,
}
use prukka.Pipeline.Units.{
  Sample, silence, sample_rate, samples_for, duration_for, PullStatus, pull_pending, pull_ready,
  pull_eof, Pcm, no_pcm,
}
use prukka.Pipeline.Group.{PlayoutGroup, new_group, acquire, release, seal}

pub record VoiceCursor : Type 0 where
  pub head : ℕ
  pub registered : Bool
  pub accepted : Bool
  pub released : Bool
  pub listed : Bool

pub record VoiceQueue : Type 0 where
  pub cursors : List VoiceCursor
  pub group : PlayoutGroup
  pub buf : List Sample
  pub clock : ℕ
  pub max_lead : ℕ
  pub finished : Bool

-- The lead is `max(lead, 0)` of the source's signed duration.
unfoldable pub new_voice_queue : ℕ → VoiceQueue
unfolding samples_for new_group
new_voice_queue lead = record {
  cursors = [];
  group = new_group;
  buf = [];
  clock = 0;
  max_lead = samples_for lead;
  finished = false;
}

abbrev pub new_cursor : VoiceCursor
new_cursor = record {
  head = 0;
  registered = false;
  accepted = false;
  released = false;
  listed = false;
}

unfoldable pub cursor : VoiceQueue → VoiceQueue
cursor q = record q { cursors = q.cursors ++ new_cursor ∷ [] }

abbrev pub any_listed : List VoiceCursor → Bool
any_listed [] = false
any_listed (c ∷ cs) = c.listed || any_listed cs

-- The loop of `consumedLocked`, from `consumed` on.
abbrev pub lowest_head : ℕ → List VoiceCursor → ℕ
lowest_head consumed [] = consumed
lowest_head consumed (c ∷ cs) = lowest_head (if c.listed then min consumed c.head else consumed) cs

unfoldable pub consumed_locked : VoiceQueue → ℕ
consumed_locked q = if any_listed q.cursors then lowest_head (length q.buf) q.cursors else 0

-- `max(0, c.head-n)` of the source's signed numbers.
abbrev pub clamp_head : ℕ → VoiceCursor → VoiceCursor
clamp_head n c = if c.listed then record c { head = c.head - n } else c

unfoldable pub discard_locked : ℕ → VoiceQueue → VoiceQueue
unfolding duration_for
discard_locked n q = record q {
  buf = drop n q.buf;
  clock = q.clock + duration_for n;
  cursors = map (clamp_head n) q.cursors;
}

unfoldable pub compact : VoiceQueue → VoiceQueue
unfolding consumed_locked discard_locked
compact q = let d = consumed_locked q in if ltb 0 d then discard_locked d q else q

unfoldable pub shed : VoiceQueue → VoiceQueue
unfolding discard_locked
shed q =
    if ltb 0 q.max_lead && ltb q.max_lead (length q.buf)
    then discard_locked (length q.buf - q.max_lead) q
    else q

abbrev pub enqueue : List Sample → VoiceQueue → VoiceQueue
enqueue samples q = record q { buf = q.buf ++ samples }

-- The end of what is queued, on the queue's clock.
abbrev pub end_instant : VoiceQueue → ℕ
end_instant q = q.clock + duration_for (length q.buf)

-- The instant that the caller asks for is ignored.
unfoldable pub append : ℕ → List Sample → VoiceQueue → VoiceQueue × ℕ
unfolding compact shed
append at samples q = let q' = shed (enqueue samples (compact q)) in (q', end_instant q')

unfoldable pub finish : VoiceQueue → VoiceQueue
finish q = record q { finished = true }

-- `beginLocked`: whether the cursor may play, the cursor, and the group.
unfoldable pub begin_locked : VoiceCursor → PlayoutGroup → Bool × VoiceCursor × PlayoutGroup
unfolding acquire
begin_locked c g =
    let (g', joined) = acquire g in
    if c.registered then (c.accepted && not c.released, c, g) else (
      joined && not c.released,
      record c { registered = true; accepted = joined; listed = joined || c.listed },
      g',
    )

abbrev pub put_cursor : ℕ → VoiceCursor → PlayoutGroup → VoiceQueue → VoiceQueue
put_cursor i c g q = record q { cursors = set q.cursors i c; group = g }

-- `NextInto` of a cursor that may play, at a window of `n` samples.
unfoldable pub pull : VoiceCursor → ℕ → VoiceQueue → VoiceCursor × Pcm × PullStatus
unfolding duration_for
pull c n q =
    let pending = length q.buf - c.head in
    let m = min pending n in
    if pending == 0 then (c, no_pcm, if q.finished then pull_eof else pull_pending) else (
      record c { head = c.head + m },
      record {
        samples = take m (drop c.head q.buf) ++ replicate (n - m) silence;
        rate = sample_rate;
        ch = 1;
        pts = q.clock + duration_for c.head;
      },
      pull_ready,
    )

unfoldable pub next_at : ℕ → VoiceCursor → ℕ → VoiceQueue → VoiceQueue × Pcm × PullStatus
unfolding begin_locked pull
next_at i c n q =
    let (plays, c', g) = begin_locked c q.group in
    let (c'', pcm, status) = pull c' n q in
    if plays then (put_cursor i c'' g q, pcm, status) else (put_cursor i c' g q, no_pcm, pull_eof)

-- An index that no cursor has changes nothing; the source has no such pointer.
unfoldable pub next_into : ℕ → ℕ → VoiceQueue → VoiceQueue × Pcm × PullStatus
unfolding next_at
next_into i n q = elim (get_elem? q.cursors i) [
  | none ↦ (q, no_pcm, pull_eof)
  | some c ↦ next_at i c n q
]

unfoldable pub begin_playout : ℕ → VoiceQueue → VoiceQueue × Bool
unfolding begin_locked
begin_playout i q = elim (get_elem? q.cursors i) [
  | none ↦ (q, false)
  | some c ↦ let (plays, c', g) = begin_locked c q.group in (put_cursor i c' g q, plays)
]

-- The group's `release` runs after the queue's mutex is freed; no step of this queue's other methods
-- between the two reads what the other changes but `wait`, which then waits a little longer.
unfoldable pub release_at : ℕ → VoiceCursor → VoiceQueue → Option VoiceQueue
unfolding release
release_at i c q =
    if not c.registered || not c.accepted || c.released then some q else (elim (release q.group) [
      | none ↦ none
      | some g ↦ some (put_cursor i (record c { released = true; listed = false }) g q)
    ])

unfoldable pub release_playout : ℕ → VoiceQueue → Option VoiceQueue
unfolding release_at
release_playout i q = elim (get_elem? q.cursors i) [ none ↦ some q | some c ↦ release_at i c q ]

-- The locked half of `WaitPlayout`.
unfoldable pub seal_playout : VoiceQueue → Option VoiceQueue
unfolding seal
seal_playout q = elim (seal q.group) [ none ↦ none | some g ↦ some (record q { group = g }) ]
