-- ===== src/Session/Lanes/Steps.antt =====
-- That every step of the registry and of the goroutines keeps the invariant, so that no two lanes of one
-- session run at a time.
use prukka.Base.{
  ℕ, ◌<◌, ◌≡◌, ◌≢◌, refl, ap, subst, ◌∙◌, true, false, ◌&&◌, some, ◌⊎◌, inl, inr, arith, ◌==◌, Text,
  Bool-cases, Option-cases, if-either,
}
use prukka.Base.Keyed.{find, put}
use prukka.Session.Lanes.{
  LaneState, lane_running, lane_stopping, lane_exited, Phase, waiting, started, returned, forgotten,
  closed, Lane, LaneReg, Runtime, new_runtime, change, cancelled, moved, stop, stop_running,
  clear_stopped, clear_exited, schedule_retry, forget, is_lane_exited,
}
use prukka.Session.Lanes.Exclusion.{
  is_live, Drained, Step, launches, stops, stops_running, clears_stopped, clears, reschedules,
  cancels, starts, skips, returns, forgets, closes, Reaches, at_rest, onward, Inv, new_runtime-Inv,
}
use prukka.Session.Lanes.Writes.{put-Inv, erase-Inv, same_lane}
use prukka.Session.Lanes.Moves.{Moves, change-Inv}
use prukka.Session.Lanes.Launches.{launch-Inv}

-- A lane whose predecessor is drained has no live lane before it.
alone :
    (rt : Runtime) (g : ℕ) (l : Lane)
    → Inv rt
    → rt.lanes g ≡ some l
    → Drained rt l.prev
    → (e : ℕ) (k : Lane) → rt.lanes e ≡ some k
    → k.slug ≡ l.slug
    → e < g
    → is_live k.phase ≡ false
alone rt g l i a d e k b s n = elim (Bool-cases (is_live k.phase)) [
  | inr f ↦ f
  | inl live ↦
      let held = i.chain e g k l b a s n live in
      let (m, stands, done) = d held.on held.behind in
      absurd (held.undrained (ap (λ z. z.phase) (same_lane held.stands stands) ∙ done))
]

cancelled-Moves : (rt : Runtime) (g : ℕ) → Moves rt g cancelled
cancelled-Moves rt g = record {
  slug = λ l. refl;
  prev = λ l. refl;
  dies = λ l a y. y;
  waits = λ l a w. inl w;
  drains = λ l a y. inl y;
}

-- A move out of the wait, once the predecessor is drained.
Drained-Moves :
    (rt : Runtime) (g : ℕ) (l : Lane) (to : Phase)
    → Inv rt
    → rt.lanes g ≡ some l
    → l.phase ≡ waiting
    → Drained rt l.prev
    → to ≢ closed
    → Moves rt g (moved to)
Drained-Moves rt g l to i a w d u = record {
  slug = λ l. refl;
  prev = λ l. refl;
  dies = λ k b y. cc (ap (λ z. is_live z.phase) (same_lane a b), ap is_live w);
  waits = λ k b y. inr (
      subst
        (λ z.
          (e : ℕ) (m : Lane)
          → rt.lanes e ≡ some m
          → m.slug ≡ z.slug
          → e < g
          → is_live m.phase ≡ false)
        (same_lane a b) (alone rt g l i a d));
  drains = λ k b y. absurd (u y);
}

-- A move from behind the wait.
later-Moves :
    (rt : Runtime) (g : ℕ) (l : Lane) (to : Phase)
    → rt.lanes g ≡ some l
    → l.phase ≢ waiting
    → (is_live to ≡ true → is_live l.phase ≡ true)
    → (to ≡ closed → l.phase ≡ forgotten)
    → Moves rt g (moved to)
later-Moves rt g l to a w v u = record {
  slug = λ l. refl;
  prev = λ l. refl;
  dies = λ k b y. ap (λ z. is_live z.phase) (same_lane b a) ∙ v y;
  waits = λ k b y. absurd (w (ap (λ z. z.phase) (same_lane a b) ∙ y));
  drains = λ k b y. inr (ap (λ z. z.phase) (same_lane b a) ∙ u y);
}

state-cases : (s : LaneState) → (s ≡ lane_running) ⊎ ((s ≡ lane_stopping) ⊎ (s ≡ lane_exited))
state-cases lane_running = inl refl
state-cases lane_stopping = inr (inl refl)
state-cases lane_exited = inr (inr refl)

-- A running lane is cancelled, and its entry marked as draining.
stopping-Inv :
    (rt : Runtime) (slug : Text) (r : LaneReg)
    → Inv rt
    → find slug rt.regs ≡ some r
    → Inv (
        change cancelled r.gen
          (record rt { regs = put slug (record r { state = lane_stopping }) rt.regs }))
stopping-Inv rt slug r i f =
    let stopping = record r { state = lane_stopping } in
    let draining = record rt { regs = put slug stopping rt.regs } in
    change-Inv draining r.gen cancelled (cancelled-Moves draining r.gen)
      (put-Inv rt slug r stopping i f refl (λ y l a. cc y))

stop-Inv : (slug : Text) (rt : Runtime) → Inv rt → Inv (stop slug rt)
unfolding stop
stop-Inv slug rt i = elim (Option-cases (find slug rt.regs)) [
  | inl f ↦ rw (f, stop) i
  | inr (r, f) ↦ elim (state-cases r.state) [
    | inl e ↦ rw (f, e, stop) (stopping-Inv rt slug r i f)
    | inr (inl e) ↦ rw (f, e, stop) i
    | inr (inr e) ↦ rw (f, e, stop) (erase-Inv rt slug r i f (ap is_lane_exited e))
  ]
]

stop_running-Inv : (slug : Text) (rt : Runtime) → Inv rt → Inv (stop_running slug rt)
unfolding stop_running
stop_running-Inv slug rt i = elim (Option-cases (find slug rt.regs)) [
  | inl f ↦ rw (f, stop_running) i
  | inr (r, f) ↦ elim (state-cases r.state) [
    | inl e ↦ rw (f, e, stop_running) (stopping-Inv rt slug r i f)
    | inr (inl e) ↦ rw (f, e, stop_running) i
    | inr (inr e) ↦ rw (f, e, stop_running) i
  ]
]

clear_stopped-Inv : (slug : Text) (g : ℕ) (rt : Runtime) → Inv rt → Inv (clear_stopped slug g rt)
unfolding clear_stopped
clear_stopped-Inv slug g rt i = elim (Option-cases (find slug rt.regs)) [
  | inl f ↦ rw (f, clear_stopped) i
  | inr (r, f) ↦ elim (Bool-cases (r.gen == g && is_lane_exited r.state)) [
    | inl x ↦ rw (f, x, clear_stopped) (erase-Inv rt slug r i f (ground arith))
    | inr x ↦ rw (f, x, clear_stopped) i
  ]
]

clear_exited-Inv : (slug : Text) (rt : Runtime) → Inv rt → Inv (clear_exited slug rt)
unfolding clear_exited
clear_exited-Inv slug rt i = elim (Option-cases (find slug rt.regs)) [
  | inl f ↦ rw (f, clear_exited) i
  | inr (r, f) ↦ elim (Bool-cases (is_lane_exited r.state)) [
    | inl x ↦ rw (f, x, clear_exited) (erase-Inv rt slug r i f x)
    | inr x ↦ rw (f, x, clear_exited) i
  ]
]

schedule_retry-Inv :
    (now hash g : ℕ) (slug : Text) (rt : Runtime) → Inv rt → Inv (schedule_retry now hash slug g rt)
unfolding schedule_retry
schedule_retry-Inv now hash g slug rt i = elim (Option-cases (find slug rt.regs)) [
  | inl f ↦ rw (f, schedule_retry) i
  | inr (r, f) ↦
      rw (f, schedule_retry)
        (if-either Inv (r.gen == g) _ rt
          (put-Inv rt slug r _ i f refl (λ y l a.
            (let (m, stands, named, x) = i.known slug r f in
              ap (λ z. is_live z.phase) (same_lane a stands) ∙ x y)))
          i)
]

forgotten_there :
    (g h : ℕ) (l k : Lane) (rt : Runtime)
    → h ≡ g
    → rt.lanes g ≡ some l
    → (change (moved forgotten) g rt).lanes h ≡ some k
    → is_live k.phase ≡ false
forgotten_there g h l k rt e a b =
    let q : (h == g) ≡ true = ground arith in
    let c : rt.lanes h ≡ some l = ap rt.lanes e ∙ a in
    let moved_there : (change (moved forgotten) g rt).lanes h ≡ some (moved forgotten l) =
      rw (c, q) refl in
    ap (λ z. is_live z.phase) (same_lane b moved_there)

forget-Inv :
    (g : ℕ) (l : Lane) (rt : Runtime)
    → Inv rt
    → rt.lanes g ≡ some l
    → l.phase ≡ returned
    → Inv (forget l.slug g rt)
unfolding forget
forget-Inv g l rt i a w =
    let j =
      change-Inv rt g (moved forgotten)
        (later-Moves rt g l forgotten a (λ z. cc (w, z)) (λ z. ap is_live w) (λ z. cc z)) i in
    elim (Option-cases (find l.slug rt.regs)) [
      | inl f ↦ rw (f, forget) j
      | inr (r, f) ↦ elim (Bool-cases (r.gen == g)) [
        | inr x ↦ rw (f, x, forget) j
        | inl x ↦
            rw (f, x, forget)
              (put-Inv (change (moved forgotten) g rt) l.slug r (record r { state = lane_exited }) j
                f refl (λ y k b. forgotten_there g r.gen l k rt (ground arith) a b))
      ]
    ]

step-Inv : (a b : Runtime) → Step a b → Inv a → Inv b
step-Inv a b (launches now s n) i = launch-Inv now s a i n
step-Inv a b (stops slug) i = stop-Inv slug a i
step-Inv a b (stops_running slug) i = stop_running-Inv slug a i
step-Inv a b (clears_stopped slug g) i = clear_stopped-Inv slug g a i
step-Inv a b (clears slug) i = clear_exited-Inv slug a i
step-Inv a b (reschedules now hash g slug) i = schedule_retry-Inv now hash g slug a i
step-Inv a b (cancels g) i = change-Inv a g cancelled (cancelled-Moves a g) i
step-Inv a b (starts g l e w c d) i =
    change-Inv a g (moved started) (Drained-Moves a g l started i e w d (λ z. cc z)) i
step-Inv a b (skips g l e w c d) i =
    change-Inv a g (moved returned) (Drained-Moves a g l returned i e w d (λ z. cc z)) i
step-Inv a b (returns g l e w) i =
    change-Inv a g (moved returned)
      (later-Moves a g l returned e (λ z. cc (w, z)) (λ z. ap is_live w) (λ z. cc z)) i
step-Inv a b (forgets g l e w) i = forget-Inv g l a i e w
step-Inv a b (closes g l e w) i =
    change-Inv a g (moved closed) (later-Moves a g l closed e (λ z. cc (w, z)) (λ z. cc z) (λ z. w))
      i

Reaches-Inv : (a b : Runtime) → Reaches a b → Inv a → Inv b
Reaches-Inv a b at_rest i = i
Reaches-Inv a c (onward {b = b} r s) i = step-Inv b c s (Reaches-Inv a b r i)

-- In every state that launches, stops, retries and the lanes' goroutines can reach from an empty registry,
-- in any interleaving, a lane that is not yet forgotten keeps every later lane of its session waiting: a
-- replacement never runs beside its predecessor.
pub Reaches-waits :
    (rt : Runtime) (g h : ℕ) (k l : Lane)
    → Reaches new_runtime rt
    → rt.lanes g ≡ some k
    → rt.lanes h ≡ some l
    → k.slug ≡ l.slug
    → g < h
    → is_live k.phase ≡ true
    → l.phase ≡ waiting
Reaches-waits rt g h k l r a b s n v =
    let held = (Reaches-Inv new_runtime rt r new_runtime-Inv).chain g h k l a b s n v in held.waits
