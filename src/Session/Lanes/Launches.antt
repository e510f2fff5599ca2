-- ===== src/Session/Lanes/Launches.antt =====
-- That a launch keeps the invariant of Exclusion.
use prukka.Base.{
  ℕ, ◌+◌, ◌≤◌, ◌<◌, ◌≡◌, refl, sym, ap, subst, ◌∙◌, true, false, Option, some, ◌⊎◌, inl, inr, arith,
  leb, ◌==◌, Text, Bool-cases, if-either,
}
use prukka.Base.Keyed.{find, put, find-put, find-put_cases}
use prukka.Session.Model.{Session}
use prukka.Session.Store.{word}
use prukka.Session.Lanes.{waiting, Lane, LaneReg, Runtime, gen_of, set_lane, launch, is_lane_exited}
use prukka.Session.Lanes.Exclusion.{is_live, Held, Inv}
use prukka.Session.Lanes.Writes.{same_lane, same_reg}

abbrev waiting_lane : Text → Option ℕ → Lane
waiting_lane slug prev = record { slug = slug; prev = prev; phase = waiting; cancelled = false }

-- A registry with one more lane, of the next generation.
abbrev launched : Text → LaneReg → Runtime → Runtime
launched slug r rt = record rt {
  next_gen = r.gen;
  regs = put slug r rt.regs;
  lanes = set_lane r.gen (waiting_lane slug (gen_of (find slug rt.regs))) rt.lanes;
}

set_lane_cases :
    (g h : ℕ) (m l : Lane) (lanes : ℕ → Option Lane)
    → set_lane g m lanes h ≡ some l
    → ((h ≡ g) × (m ≡ l)) ⊎ (lanes h ≡ some l)
set_lane_cases g h m l lanes e = elim (Bool-cases (h == g)) [
  | inl q ↦ inl (ground arith, ground arith)
  | inr q ↦ inr (ground arith)
]

set_lane_older :
    (g h : ℕ) (m l : Lane) (lanes : ℕ → Option Lane)
    → h < g
    → lanes h ≡ some l
    → set_lane g m lanes h ≡ some l
set_lane_older g h m l lanes n e = let q : (h == g) ≡ false = ground arith in rw q e

-- A lane that is launched while an earlier one of its session is live waits for one that is not drained.
launched-Held :
    (rt : Runtime) (slug : Text) (r : LaneReg) (c : ℕ) (k : Lane)
    → Inv rt
    → r.gen ≡ rt.next_gen + 1
    → rt.lanes c ≡ some k
    → k.slug ≡ slug
    → is_live k.phase ≡ true
    → Held (launched slug r rt) c r.gen (waiting_lane slug (gen_of (find slug rt.regs)))
launched-Held rt slug r c k i n a s live =
    let (q, found, le) = i.registered c k a live in
    let found' : find slug rt.regs ≡ some q = subst (λ j. find j rt.regs ≡ some q) s found in
    let (m, stands, named, x) = i.known slug q found' in
    let old = i.issued q.gen m stands in
    record {
      waits = refl;
      on = q.gen;
      behind = ap gen_of found';
      lane = m;
      stands = set_lane_older r.gen q.gen _ m rt.lanes (omega (arith, old, n)) stands;
      slug = named;
      undrained = λ z. elim (Bool-cases (leb q.gen c)) [
        | inl e ↦
            let one : k ≡ m = same_lane a (ap rt.lanes (the_same c q.gen e le) ∙ stands) in
            cc (live, ap (λ y. is_live y.phase) one, ap is_live z)
        | inr e ↦
            let held = i.chain c q.gen k m a stands (s ∙ sym named) (ground arith) live in
            cc (z, held.waits)
      ];
      after = le;
      before = omega (arith, old, n);
    }
  where
    the_same : (a q : ℕ) → leb q a ≡ true → a ≤ q → a ≡ q
    the_same a q e n = ground arith

launched-Inv :
    (rt : Runtime) (slug : Text) (r : LaneReg)
    → Inv rt
    → r.gen ≡ rt.next_gen + 1
    → is_lane_exited r.state ≡ false
    → Inv (launched slug r rt)
launched-Inv rt slug r i n x =
    let new = waiting_lane slug (gen_of (find slug rt.regs)) in
    record {
      issued = λ h l e. elim (set_lane_cases r.gen h new l rt.lanes e) [
        | inl (q, w) ↦ omega (arith, q)
        | inr o ↦ omega (arith, n, i.issued h l o)
      ];
      registered = λ h l e live. elim (set_lane_cases r.gen h new l rt.lanes e) [
        | inl (q, w) ↦ (
          r,
          subst (λ j. find j (put slug r rt.regs) ≡ some r) (ap (λ z. z.slug) w)
              (find-put slug r rt.regs),
          omega (arith, q),
        )
        | inr o ↦
            let (q, found, le) = i.registered h l o live in
            elim (find-put_cases l.slug slug r rt.regs) [
              | inl (same, w) ↦ (r, w, omega (arith, n, i.issued h l o))
              | inr (other, w) ↦ (q, w ∙ found, le)
            ]
      ];
      known = λ j q e. elim (find-put_cases j slug r rt.regs) [
        | inl (same, w) ↦
            let written : r ≡ q = same_reg w e in
            (
              new,
              subst (λ z. set_lane r.gen new rt.lanes z.gen ≡ some new) written
                  (own r.gen new rt.lanes),
              same,
              λ y. cc (x, y, ap (λ z. is_lane_exited z.state) written),
            )
        | inr (other, w) ↦
            let (l, stands, named, d) = i.known j q (sym w ∙ e) in
            (
              l,
              set_lane_older r.gen q.gen new l rt.lanes (omega (arith, n, i.issued q.gen l stands))
                  stands,
              named,
              d,
            )
      ];
      chain = λ c h k l e₁ e₂ s lt live. elim (set_lane_cases r.gen c new k rt.lanes e₁) [
        | inl (q, w) ↦ elim (set_lane_cases r.gen h new l rt.lanes e₂) [
          | inl (q', w') ↦ absurd (omega (arith, q, q', lt))
          | inr o ↦ absurd (omega (arith, q, n, lt, i.issued h l o))
        ]
        | inr a ↦ elim (set_lane_cases r.gen h new l rt.lanes e₂) [
          | inl (q', w') ↦
              subst (λ z. Held (launched slug r rt) c h z) w'
                (subst (λ z. Held (launched slug r rt) c z new) (sym q')
                  (launched-Held rt slug r c k i n a (s ∙ ap (λ z. z.slug) (sym w')) live))
          | inr b ↦
              let o = i.chain c h k l a b s lt live in
              record {
                waits = o.waits;
                on = o.on;
                behind = o.behind;
                lane = o.lane;
                stands =
                    set_lane_older r.gen o.on new o.lane rt.lanes
                      (omega (arith, n, i.issued o.on o.lane o.stands)) o.stands;
                slug = o.slug;
                undrained = o.undrained;
                after = o.after;
                before = o.before;
              }
        ]
      ];
    }
  where
    own : (g : ℕ) (m : Lane) (lanes : ℕ → Option Lane) → set_lane g m lanes g ≡ some m
    own g m lanes = let q : (g == g) ≡ true = ground arith in rw q refl

-- A launch takes a generation that no lane had, and waits for the lane that is registered: all that are
-- live of its session stand at or before that one.
pub launch-Inv :
    (now : ℕ) (s : Session) (rt : Runtime) → Inv rt → rt.next_gen + 1 < word → Inv (launch now s rt)
unfolding launch
launch-Inv now s rt i n = if-either Inv _ rt _ i (launched-Inv rt s.slug _ i (omega arith) refl)
