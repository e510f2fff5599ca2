-- ===== src/Session/Lanes.antt =====
-- internal/core/session/runtime.go: the registry of lanes, and the goroutine of each lane. What runs under
-- the registry's mutex is one function; a lane's `done` channel and its `cancel` are known by its
-- generation, of which each launch takes a new one. The readings of the clock are arguments.
pub mod Exclusion
pub mod Writes
pub mod Moves
pub mod Launches
pub mod Steps
pub mod Retries
mod Tests
use prukka.Base.{
  ℕ, zero, suc, ◌+◌, ◌-◌, ◌*◌, ◌/◌, ◌%◌, ◌≤◌, ◌<◌, ◌≡◌, refl, min, Bool, true, false, not, ◌&&◌,
  ◌||◌, Option, none, some, List, [], ◌∷◌, arith, ltb, leb, ◌==◌, if◌then◌else◌, Text, text_eq,
}
use prukka.Base.Int.{ℤ, pos, negsuc}
use prukka.Base.Keyed.{find, put, erase}
use prukka.Session.Model.{
  RuntimeState, unset, starting, running, finished, failed, SourceSpec, Session,
}
use prukka.Session.Store.{word}

pub data LaneState : Type 0 where
  lane_running : LaneState
  lane_stopping : LaneState
  lane_exited : LaneState

-- Where a lane's goroutine stands: before its predecessor is drained, in the starter, behind it, behind
-- `forget`, and behind the close of `done`.
pub data Phase : Type 0 where
  waiting : Phase
  started : Phase
  returned : Phase
  forgotten : Phase
  closed : Phase

pub record Lane : Type 0 where
  pub slug : Text
  pub prev : Option ℕ
  pub phase : Phase
  pub cancelled : Bool

pub record LaneReg : Type 0 where
  pub spec : Session
  pub retry_at : ℕ
  pub gen : ℕ
  pub retries : ℕ
  pub state : LaneState

pub record Runtime : Type 0 where
  pub regs : List (Text × LaneReg)
  pub lanes : ℕ → Option Lane
  pub next_gen : ℕ

unfoldable pub new_runtime : Runtime
new_runtime = record { regs = []; lanes = λ g. none; next_gen = 0 }

abbrev pub texts_eq : List Text → List Text → Bool
texts_eq [] [] = true
texts_eq [] (b ∷ bs) = false
texts_eq (a ∷ as') [] = false
texts_eq (a ∷ as') (b ∷ bs) = text_eq a b && texts_eq as' bs

abbrev pub ints_eq : ℤ → ℤ → Bool
ints_eq (pos a) (pos b) = a == b
ints_eq (negsuc a) (negsuc b) = a == b
ints_eq (pos a) (negsuc b) = false
ints_eq (negsuc a) (pos b) = false

abbrev pub bools_eq : Bool → Bool → Bool
bools_eq true b = b
bools_eq false b = not b

unfoldable pub same_media : Session → Session → Bool
same_media a b =
    text_eq a.subs b.subs
    && text_eq a.dub b.dub
    && text_eq a.bed b.bed
    && text_eq a.pair b.pair
    && text_eq a.source_lang b.source_lang
    && bools_eq a.dub_langs.chosen b.dub_langs.chosen
    && texts_eq a.dub_langs.langs b.dub_langs.langs

abbrev pub sources_eq : SourceSpec → SourceSpec → Bool
sources_eq a b = text_eq a.url b.url && text_eq a.video_dir b.video_dir && ints_eq a.delay b.delay

unfoldable pub same_definition : Session → Session → Bool
unfolding same_media
same_definition a b =
    text_eq a.slug b.slug
    && text_eq a.profile b.profile
    && sources_eq a.source b.source
    && texts_eq a.langs b.langs
    && ints_eq a.delay b.delay
    && same_media a b

abbrev pub is_stopping : LaneState → Bool
is_stopping lane_running = false
is_stopping lane_stopping = true
is_stopping lane_exited = false

abbrev pub is_lane_exited : LaneState → Bool
is_lane_exited lane_running = false
is_lane_exited lane_stopping = false
is_lane_exited lane_exited = true

abbrev pub is_failed : RuntimeState → Bool
is_failed unset = false
is_failed starting = false
is_failed running = false
is_failed finished = false
is_failed failed = true

-- Whether the session already has its lane, and whether that lane failed and is due for a retry.
unfoldable pub lane_disposition : Option LaneReg → Session → ℕ → Bool × Bool
lane_disposition none s now = (false, false)
lane_disposition (some reg) s now =
    let same =
      not (is_stopping reg.state)
      && reg.spec.revision == s.revision
      && same_definition reg.spec s in
    (same, same && is_lane_exited reg.state && is_failed s.runtime.state && leb reg.retry_at now)

-- A retry counts on, and starts over behind 255.
unfoldable pub next_retry_count : ℕ → Bool → ℕ
next_retry_count previous retrying = if retrying && ltb previous 255 then previous + 1 else 0

-- 10 seconds and 5 minutes.
abbrev pub failed_retry_base : ℕ
failed_retry_base = 10000000000

abbrev pub failed_retry_max : ℕ
failed_retry_max = 300000000000

-- The loop of `failedRetryDelay`, which doubles once a retry and stops at the maximum.
unfoldable pub backed_off : ℕ → ℕ → ℕ
backed_off delay zero = delay
backed_off delay (suc retries) =
    let rest = backed_off (delay * 2) retries in
    if leb (failed_retry_max / 2) delay then failed_retry_max else rest

-- `hash` is the FNV-1a sum of the slug.
unfoldable pub failed_retry_delay : ℕ → ℕ → ℕ
unfolding backed_off
failed_retry_delay hash retries =
    let delay = backed_off failed_retry_base retries in
    min (delay + (hash % 1000) * delay / 5000) failed_retry_max

abbrev pub gen_of : Option LaneReg → Option ℕ
gen_of none = none
gen_of (some reg) = some reg.gen

abbrev pub retries_of : Option LaneReg → ℕ
retries_of none = 0
retries_of (some reg) = reg.retries

abbrev pub set_lane : ℕ → Lane → (ℕ → Option Lane) → ℕ → Option Lane
set_lane g l lanes h = if h == g then some l else lanes h

-- The locked half of `launch`, with the goroutine that it starts. A lane that the store refuses to bind is
-- cancelled at once; that is the step `cancels`.
unfoldable pub launch : ℕ → Session → Runtime → Runtime
launch now s rt =
    let prev = find s.slug rt.regs in
    let (same, retrying) = lane_disposition prev s now in
    let gen = (rt.next_gen + 1) % word in
    if same && not retrying then rt else record rt {
      next_gen = gen;
      regs =
          put s.slug
            (record {
              spec = s;
              retry_at = 0;
              gen = gen;
              retries = next_retry_count (retries_of prev) retrying;
              state = lane_running;
            })
            rt.regs;
      lanes =
          set_lane gen
            (record { slug = s.slug; prev = gen_of prev; phase = waiting; cancelled = false })
            rt.lanes;
    }

-- A change of the lane of one generation.
abbrev pub change : (Lane → Lane) → ℕ → Runtime → Runtime
change f g rt = record rt {
  lanes = λ h. elim (rt.lanes h) [ none ↦ none | some l ↦ some (if h == g then f l else l) ];
}

abbrev pub cancelled : Lane → Lane
cancelled l = record l { cancelled = true }

abbrev pub moved : Phase → Lane → Lane
moved phase l = record l { phase = phase }

unfoldable pub stop : Text → Runtime → Runtime
stop slug rt = elim (find slug rt.regs) [
  | none ↦ rt
  | some reg ↦ elim reg.state [
    | lane_running ↦
        change cancelled reg.gen
          (record rt { regs = put slug (record reg { state = lane_stopping }) rt.regs })
    | lane_stopping ↦ rt
    | lane_exited ↦ record rt { regs = erase slug rt.regs }
  ]
]

-- One round of the loop of `stopAll`.
unfoldable pub stop_running : Text → Runtime → Runtime
stop_running slug rt = elim (find slug rt.regs) [
  | none ↦ rt
  | some reg ↦ elim reg.state [
    | lane_running ↦
        change cancelled reg.gen
          (record rt { regs = put slug (record reg { state = lane_stopping }) rt.regs })
    | lane_stopping ↦ rt
    | lane_exited ↦ rt
  ]
]

-- The end of `stopAndWait`, on the lane whose `done` it has waited for.
unfoldable pub clear_stopped : Text → ℕ → Runtime → Runtime
clear_stopped slug g rt = elim (find slug rt.regs) [
  | none ↦ rt
  | some reg ↦
      if reg.gen == g && is_lane_exited reg.state
      then record rt { regs = erase slug rt.regs }
      else rt
]

-- The deletion of a leftover in `orphans`.
unfoldable pub clear_exited : Text → Runtime → Runtime
clear_exited slug rt = elim (find slug rt.regs) [
  | none ↦ rt
  | some reg ↦ if is_lane_exited reg.state then record rt { regs = erase slug rt.regs } else rt
]

unfoldable pub schedule_retry : ℕ → ℕ → Text → ℕ → Runtime → Runtime
schedule_retry now hash slug g rt = elim (find slug rt.regs) [
  | none ↦ rt
  | some reg ↦
      if reg.gen == g
      then record rt {
        regs =
            put slug (record reg { retry_at = now + failed_retry_delay hash reg.retries }) rt.regs;
      }
      else rt
]

-- `forget`, on a lane's own generation only, with the step of its goroutine.
unfoldable pub forget : Text → ℕ → Runtime → Runtime
forget slug g rt = elim (find slug rt.regs) [
  | none ↦ change (moved forgotten) g rt
  | some reg ↦
      if reg.gen == g
      then change (moved forgotten) g
          (record rt { regs = put slug (record reg { state = lane_exited }) rt.regs })
      else change (moved forgotten) g rt
]
