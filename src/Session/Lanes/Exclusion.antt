-- ===== src/Session/Lanes/Exclusion.antt =====
-- That no two lanes of one session run at a time: the steps of the registry and of the lanes' goroutines of
-- internal/core/session/runtime.go, as a relation, and the invariant behind the chain of `done` channels.
use prukka.Base.{ℕ, ◌+◌, ◌≤◌, ◌<◌, ◌≡◌, ◌≢◌, Bool, true, false, Option, some, Text}
use prukka.Base.Keyed.{find}
use prukka.Session.Model.{Session}
use prukka.Session.Store.{word}
use prukka.Session.Lanes.{
  Phase, waiting, started, returned, forgotten, closed, Lane, LaneReg, Runtime, new_runtime, launch,
  change, cancelled, moved, stop, stop_running, clear_stopped, clear_exited, schedule_retry, forget,
  is_lane_exited,
}

abbrev pub is_live : Phase → Bool
is_live waiting = true
is_live started = true
is_live returned = true
is_live forgotten = false
is_live closed = false

-- What a lane waits for: the close of its predecessor's `done`, if it has one.
abbrev pub Drained : Runtime → Option ℕ → Type 0
Drained rt prev = (q : ℕ) → prev ≡ some q → (m : Lane) × (rt.lanes q ≡ some m) × (m.phase ≡ closed)

-- One step of the registry or of a goroutine. Generations have not run out.
pub data Step : Runtime → Runtime → Type 0 where
  launches :
      (now : ℕ) (s : Session) {rt : Runtime} → rt.next_gen + 1 < word → Step rt (launch now s rt)
  stops : (slug : Text) {rt : Runtime} → Step rt (stop slug rt)
  clears : (slug : Text) {rt : Runtime} → Step rt (clear_exited slug rt)
  stops_running : (slug : Text) {rt : Runtime} → Step rt (stop_running slug rt)
  clears_stopped : (slug : Text) (g : ℕ) {rt : Runtime} → Step rt (clear_stopped slug g rt)
  reschedules :
      (now hash g : ℕ) (slug : Text) {rt : Runtime} → Step rt (schedule_retry now hash slug g rt)
  cancels : (g : ℕ) {rt : Runtime} → Step rt (change cancelled g rt)
  starts :
      (g : ℕ) (l : Lane) {rt : Runtime}
      → rt.lanes g ≡ some l
      → l.phase ≡ waiting
      → l.cancelled ≡ false
      → Drained rt l.prev
      → Step rt (change (moved started) g rt)
  skips :
      (g : ℕ) (l : Lane) {rt : Runtime}
      → rt.lanes g ≡ some l
      → l.phase ≡ waiting
      → l.cancelled ≡ true
      → Drained rt l.prev
      → Step rt (change (moved returned) g rt)
  returns :
      (g : ℕ) (l : Lane) {rt : Runtime}
      → rt.lanes g ≡ some l
      → l.phase ≡ started
      → Step rt (change (moved returned) g rt)
  forgets :
      (g : ℕ) (l : Lane) {rt : Runtime}
      → rt.lanes g ≡ some l
      → l.phase ≡ returned
      → Step rt (forget l.slug g rt)
  closes :
      (g : ℕ) (l : Lane) {rt : Runtime}
      → rt.lanes g ≡ some l
      → l.phase ≡ forgotten
      → Step rt (change (moved closed) g rt)

pub data Reaches : Runtime → Runtime → Type 0 where
  at_rest : {rt : Runtime} → Reaches rt rt
  onward : {a b c : Runtime} → Reaches a b → Step b c → Reaches a c

-- What a later lane waits for while an earlier one of its session is live: a lane between them that is not
-- drained.
pub record Held (rt : Runtime) (g h : ℕ) (l : Lane) : Type 0 where
  pub waits : l.phase ≡ waiting
  pub on : ℕ
  pub behind : l.prev ≡ some on
  pub lane : Lane
  pub stands : rt.lanes on ≡ some lane
  pub slug : lane.slug ≡ l.slug
  pub undrained : lane.phase ≢ closed
  pub after : g ≤ on
  pub before : on < h

pub record Inv (rt : Runtime) : Type 0 where
  pub issued : (g : ℕ) (l : Lane) → rt.lanes g ≡ some l → g ≤ rt.next_gen
  pub registered :
      (g : ℕ) (l : Lane)
      → rt.lanes g ≡ some l
      → is_live l.phase ≡ true
      → (r : LaneReg) × (find l.slug rt.regs ≡ some r) × (g ≤ r.gen)
  pub known :
      (slug : Text) (r : LaneReg)
      → find slug rt.regs ≡ some r
      → (l : Lane) × (rt.lanes r.gen ≡ some l)
        × (l.slug ≡ slug)
        × (is_lane_exited r.state ≡ true → is_live l.phase ≡ false)
  pub chain :
      (g h : ℕ) (k l : Lane)
      → rt.lanes g ≡ some k
      → rt.lanes h ≡ some l
      → k.slug ≡ l.slug
      → g < h
      → is_live k.phase ≡ true
      → Held rt g h l

pub new_runtime-Inv : Inv new_runtime
unfolding new_runtime
new_runtime-Inv = record {
  issued = λ g l e. cc e;
  registered = λ g l e v. cc e;
  known = λ slug r e. cc e;
  chain = λ g h k l e f s n v. cc e;
}
