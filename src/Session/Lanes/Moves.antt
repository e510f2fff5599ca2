-- ===== src/Session/Lanes/Moves.antt =====
-- That a move of one lane's goroutine keeps the invariant of Exclusion, where the move obeys its rules.
use prukka.Base.{
  ℕ, ◌≤◌, ◌<◌, ◌≡◌, ◌≢◌, refl, sym, ap, subst, ◌∙◌, Bool, true, false, some, ◌⊎◌, inl, inr, arith,
  leb, ◌==◌, Bool-cases, Option-cases,
}
use prukka.Base.Keyed.{find}
use prukka.Session.Lanes.{waiting, forgotten, closed, Lane, Runtime, change}
use prukka.Session.Lanes.Exclusion.{is_live, Inv}
use prukka.Session.Lanes.Writes.{same_lane}

-- A move of one lane: it keeps whose lane it is and what it waits for, revives no lane, leaves the wait only
-- where no earlier lane of the session is live, and closes `done` only behind `forget`.
pub record Moves (rt : Runtime) (g : ℕ) (f : Lane → Lane) : Type 0 where
  pub slug : (l : Lane) → (f l).slug ≡ l.slug
  pub prev : (l : Lane) → (f l).prev ≡ l.prev
  pub dies : (l : Lane) → rt.lanes g ≡ some l → is_live (f l).phase ≡ true → is_live l.phase ≡ true
  pub waits :
      (l : Lane)
      → rt.lanes g ≡ some l
      → l.phase ≡ waiting
      → ((f l).phase ≡ waiting)
        ⊎ ((e : ℕ) (k : Lane)
            → rt.lanes e ≡ some k
            → k.slug ≡ l.slug
            → e < g
            → is_live k.phase ≡ false)
  pub drains :
      (l : Lane)
      → rt.lanes g ≡ some l
      → (f l).phase ≡ closed
      → (l.phase ≡ closed) ⊎ (l.phase ≡ forgotten)

-- Where a lane stands after the change, and where it stood.
changed_from :
    (rt : Runtime) (g h : ℕ) (f : Lane → Lane) (l' : Lane)
    → (change f g rt).lanes h ≡ some l'
    → (l : Lane) × (rt.lanes h ≡ some l) × (((h ≡ g) × (l' ≡ f l)) ⊎ (l' ≡ l))
changed_from rt g h f l' e = elim (Option-cases (rt.lanes h)) [
  | inl n ↦ absurd (ground arith)
  | inr (l, a) ↦ elim (Bool-cases (h == g)) [
    | inl q ↦ (l, a, inl (ground arith, ground arith))
    | inr q ↦ (l, a, inr (ground arith))
  ]
]

changed_to :
    (rt : Runtime) (g h : ℕ) (f : Lane → Lane) (l : Lane)
    → rt.lanes h ≡ some l
    → (l' : Lane) × ((change f g rt).lanes h ≡ some l') × (((h ≡ g) × (l' ≡ f l)) ⊎ (l' ≡ l))
changed_to rt g h f l a = elim (Bool-cases (h == g)) [
  | inl q ↦ (f l, rw (a, q) refl, inl (ground arith, refl))
  | inr q ↦ (l, rw (a, q) refl, inr refl)
]

not_live : (a b : Bool) → (a ≡ true → b ≡ true) → b ≡ false → a ≡ false
not_live true b h e = cc (h refl, e)
not_live false b h e = refl

module _ (rt : Runtime) (g : ℕ) (f : Lane → Lane) (v : Moves rt g f) where
  -- A lane after the move is the lane before it, in what the invariant reads.
  record Same (h : ℕ) (l l' : Lane) : Type 0 where
    slug : l'.slug ≡ l.slug
    prev : l'.prev ≡ l.prev
    dies : is_live l'.phase ≡ true → is_live l.phase ≡ true
    drains : l'.phase ≡ closed → (l.phase ≡ closed) ⊎ (l.phase ≡ forgotten)

  kept_of :
      (h : ℕ) (l l' : Lane) → rt.lanes h ≡ some l → ((h ≡ g) × (l' ≡ f l)) ⊎ (l' ≡ l) → Same h l l'
  kept_of h l l' a (inr e) = record {
    slug = ap (λ z. z.slug) e;
    prev = ap (λ z. z.prev) e;
    dies = λ y. ap (λ z. is_live z.phase) (sym e) ∙ y;
    drains = λ y. inl (ap (λ z. z.phase) (sym e) ∙ y);
  }
  kept_of h l l' a (inl (q, e)) =
      let b : rt.lanes g ≡ some l = ap rt.lanes (sym q) ∙ a in
      record {
        slug = ap (λ z. z.slug) e ∙ v.slug l;
        prev = ap (λ z. z.prev) e ∙ v.prev l;
        dies = λ y. v.dies l b (ap (λ z. is_live z.phase) (sym e) ∙ y);
        drains = λ y. v.drains l b (ap (λ z. z.phase) (sym e) ∙ y);
      }

  still_waits :
      (h : ℕ) (l l' : Lane)
      → rt.lanes h ≡ some l
      → ((h ≡ g) × (l' ≡ f l)) ⊎ (l' ≡ l)
      → l.phase ≡ waiting
      → (l'.phase ≡ waiting)
        ⊎ ((e : ℕ) (k : Lane)
            → rt.lanes e ≡ some k
            → k.slug ≡ l.slug
            → e < h
            → is_live k.phase ≡ false)
  still_waits h l l' a (inr e) w = inl (ap (λ z. z.phase) e ∙ w)
  still_waits h l l' a (inl (q, e)) w = elim (v.waits l (ap rt.lanes (sym q) ∙ a) w) [
    | inl z ↦ inl (ap (λ y. y.phase) e ∙ z)
    | inr z ↦ inr (λ d k b s n. z d k b s (omega (arith, n, q)))
  ]

  -- A lane that others wait for is not drained by the move: a lane behind `forget` has no live one before it.
  still_undrained :
      (i : Inv rt) (a q : ℕ) (k m m' : Lane)
      → rt.lanes a ≡ some k
      → is_live k.phase ≡ true
      → rt.lanes q ≡ some m
      → k.slug ≡ m.slug
      → a ≤ q
      → m.phase ≢ closed
      → Same q m m'
      → m'.phase ≢ closed
  still_undrained i a q k m m' b live c s n u same y = elim (same.drains y) [
    | inl z ↦ u z
    | inr z ↦ elim (Bool-cases (leb q a)) [
      | inl e ↦
          let one : k ≡ m = same_lane b (ap rt.lanes (the_same e n) ∙ c) in
          cc (live, ap (λ y. is_live y.phase) one, ap is_live z)
      | inr e ↦ let held = i.chain a q k m b c s (ground arith) live in cc (z, held.waits)
    ]
  ]
    where
      the_same : {a q : ℕ} → leb q a ≡ true → a ≤ q → a ≡ q
      the_same e n = ground arith

  pub change-Inv : Inv rt → Inv (change f g rt)
  change-Inv i = record {
    issued = λ h l' e. (let (l, a, o) = changed_from rt g h f l' e in i.issued h l a);
    registered = λ h l' e live.
        (let (l, a, o) = changed_from rt g h f l' e in
          let s = kept_of h l l' a o in
          let (r, found, le) = i.registered h l a (s.dies live) in
          (r, subst (λ k. find k rt.regs ≡ some r) (sym s.slug) found, le));
    known = λ slug r e.
        (let (l, a, named, x) = i.known slug r e in
          let (l', b, o) = changed_to rt g r.gen f l a in
          let s = kept_of r.gen l l' a o in
          (
            l',
            b,
            s.slug ∙ named,
            λ y. not_live (is_live l'.phase) (is_live l.phase) (λ z. s.dies z) (x y),
          ));
    chain = λ c h k' l' e₁ e₂ s n live.
        (let (k, a, o) = changed_from rt g c f k' e₁ in
          let (l, b, o') = changed_from rt g h f l' e₂ in
          let sk = kept_of c k k' a o in
          let sl = kept_of h l l' b o' in
          let same_slug : k.slug ≡ l.slug = sym sk.slug ∙ s ∙ sl.slug in
          let held = i.chain c h k l a b same_slug n (sk.dies live) in
          let (m', d, o'') = changed_to rt g held.on f held.lane held.stands in
          let sm = kept_of held.on held.lane m' held.stands o'' in
          elim (still_waits h l l' b o' held.waits) [
            | inr z ↦ cc (z c k a same_slug n, sk.dies live)
            | inl w ↦ record {
              waits = w;
              on = held.on;
              behind = sl.prev ∙ held.behind;
              lane = m';
              stands = d;
              slug = sm.slug ∙ held.slug ∙ sym sl.slug;
              undrained =
                  still_undrained i c held.on k held.lane m' a (sk.dies live) held.stands
                    (same_slug ∙ sym held.slug) held.after held.undrained sm;
              after = held.after;
              before = held.before;
            }
          ]);
  }
