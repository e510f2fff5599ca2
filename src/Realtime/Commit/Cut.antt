-- ===== src/Realtime/Commit/Cut.antt =====
-- What `cut` carves: consecutive clauses that tile the words up to the new frontier.
use prukka.Base.{
  ℕ, zero, suc, ◌+◌, ◌-◌, ◌≤◌, ◌<◌, ◌≡◌, refl, sym, ap, ap₂, ◌∙◌, max, Bool, true, false, ◌&&◌,
  some, List, [], ◌∷◌, ◌++◌, inl, inr, arith, ltb, length, get_elem?, take, drop, Text, join,
  spoken, spoken-append, append-nil, append_assoc, Bool-cases, drop-drop, take-add, drop-cons,
  get_elem?-lt,
}
use prukka.Realtime.Commit.{CommitPolicy, Committer, slice, closes, cut_loop, cut_rest, cut}

-- `Tiles p ws s e cs`: the words from `s` to `e` are the clauses `cs`, in order and whole. Each closes
-- at its last word by the policy, at no earlier word, and so has at most `max_clause` words.
pub data Tiles (p : CommitPolicy) (ws : List Text) : ℕ → ℕ → List Text → Type 0 where
  done : {s : ℕ} → Tiles p ws s s []
  clause :
      {s i e : ℕ} {word : Text} {cs : List Text}
      → s ≤ i
      → i < s + p.max_clause
      → get_elem? ws i ≡ some word
      → closes p s i word ≡ true
      → Tiles p ws (suc i) e cs
      → Tiles p ws s e (join (slice s (suc i) ws) ∷ cs)

-- A loop that has not closed a clause for `max_clause` words closes one.
closes_by_length :
    (p : CommitPolicy) (start i : ℕ) (word : Text)
    → closes p start i word ≡ false
    → i - start + 1 < p.max_clause
unfolding closes
closes_by_length p start i word h = ground arith

pub cut_loop-Tiles :
    (p : CommitPolicy) (ws : List Text) (rounds i start : ℕ) (cs : List Text)
    → start ≤ i
    → i < start + p.max_clause
    → i + rounds ≤ length ws
    → (more : List Text) × (start' : ℕ) × (cut_loop p ws rounds i start cs
        ≡ some (cs ++ more, start'))
      × Tiles p ws start start' more
      × (start ≤ start')
      × (start' ≤ i + rounds)
      × (i + rounds < start' + p.max_clause)
unfolding cut_loop
cut_loop-Tiles p ws zero i start cs a b h =
    ([], start, rw (append-nil cs), Tiles.done, omega arith, omega arith, omega arith)
cut_loop-Tiles p ws (suc r) i start cs a b h =
    let (word, e) = get_elem?-lt i ws (omega arith) in
    elim (Bool-cases (closes p start i word)) [
      | inl c ↦
          let (more, s, q, t, x, y, z) =
            cut_loop-Tiles p ws r (suc i) (suc i) (cs ++ join (slice start (suc i) ws) ∷ [])
              (omega arith) (omega arith) (omega arith) in
          (
            join (slice start (suc i) ws) ∷ more,
            s,
            rw (e, cut_loop) (rw c (q ∙ ap (λ l. some (l, s)) (append_assoc cs _ more))),
            Tiles.clause a b e c t,
            omega arith,
            omega arith,
            omega arith,
          )
      | inr c ↦
          let (more, s, q, t, x, y, z) =
            cut_loop-Tiles p ws r (suc i) start cs (omega arith)
              (omega (arith, closes_by_length p start i word c)) (omega arith) in
          (more, s, rw (e, cut_loop) (rw c q), t, x, omega arith, omega arith)
    ]

slice-slice :
    (s m e : ℕ) (ws : List Text) → s ≤ m → m ≤ e → slice s m ws ++ slice m e ws ≡ slice s e ws
slice-slice s m e ws a b =
    let d : e - s ≡ (m - s) + (e - m) = omega arith in
    let f : s + (m - s) ≡ m = omega arith in
    sym (
      rw d (take-add (m - s) (e - m) (drop s ws))
      ∙ ap (λ l. take (m - s) (drop s ws) ++ take (e - m) l) (drop-drop (m - s) s ws ∙ rw f refl))

Tiles-le :
    {p : CommitPolicy} {ws : List Text} {s e : ℕ} {cs : List Text} → Tiles p ws s e cs → s ≤ e
Tiles-le done = omega arith
Tiles-le (clause a b g c t) = omega (arith, Tiles-le t)

take-cons : (n : ℕ) (w : Text) (ws : List Text) → 0 < n → take n (w ∷ ws) ≡ w ∷ take (n - 1) ws
take-cons zero w ws h = absurd (omega arith)
take-cons (suc n) w ws h = ap (λ k. w ∷ take k ws) (omega arith)

slice-ne_nil :
    (s m : ℕ) (ws : List Text)
    → s < m
    → m ≤ length ws
    → (w : Text) × (rest : List Text) × (slice s m ws ≡ w ∷ rest)
slice-ne_nil s m ws a b =
    let (w, e) = get_elem?-lt s ws (omega arith) in
    (
      w,
      take (m - s - 1) (drop (suc s) ws),
      rw (drop-cons s ws w e) (take-cons (m - s) w _ (omega arith)),
    )

spoken-slice :
    (s m : ℕ) (ws : List Text) (rest : List Text)
    → s < m
    → m ≤ length ws
    → spoken (join (slice s m ws) ∷ rest) ≡ spoken (slice s m ws) ++ spoken rest
spoken-slice s m ws rest a b = let (w, r, e) = slice-ne_nil s m ws a b in rw e refl

-- Clauses that tile a range are spoken as the words of the range are.
pub Tiles-spoken :
    {p : CommitPolicy} {ws : List Text} {s e : ℕ} {cs : List Text}
    → e ≤ length ws
    → Tiles p ws s e cs
    → spoken cs ≡ spoken (slice s e ws)
Tiles-spoken {ws} {s} h done = let z : s - s ≡ 0 = omega arith in rw z refl
Tiles-spoken {ws} {s} {e} h (clause {i = i} {cs = cs} a b g c t) =
    let i-le : suc i ≤ e = Tiles-le t in
    spoken-slice s (suc i) ws cs (omega arith) (omega arith)
    ∙ ap (◌++◌ (spoken (slice s (suc i) ws))) (Tiles-spoken h t)
    ∙ sym (spoken-append (slice s (suc i) ws) (slice (suc i) e ws))
    ∙ ap spoken (slice-slice s (suc i) e ws (omega arith) i-le)

-- The remainder of a forced cut goes on where the last clause ended.
rest-spoken :
    {p : CommitPolicy} (ws : List Text) (b s e : ℕ) (cs : List Text)
    → b ≤ s
    → s < e
    → e ≤ length ws
    → Tiles p ws b s cs
    → spoken (cs ++ join (slice s e ws) ∷ []) ≡ spoken (slice b e ws)
rest-spoken ws b s e cs x y h t =
    spoken-append cs (join (slice s e ws) ∷ [])
    ∙ ap₂ ◌++◌ (Tiles-spoken (omega arith) t)
        (spoken-slice s e ws [] y h ∙ append-nil (spoken (slice s e ws)))
    ∙ sym (spoken-append (slice b s ws) (slice s e ws))
    ∙ ap spoken (slice-slice b s e ws x (omega arith))

-- The frontier stands inside the words of the last partial.
abbrev pub IsAnchored : Committer → Type 0
IsAnchored c = c.emitted ≤ length c.last

-- What a cut up to `end` yields: the clauses that leave, and the committer after it.
pub record Cuts (end : ℕ) (force : Bool) (c : Committer) (cs : List Text) (c' : Committer)
    : Type 0 where
  pub forward : c.emitted ≤ c'.emitted
  pub within : c'.emitted ≤ max c.emitted end
  pub text : spoken cs ≡ spoken (slice c.emitted c'.emitted c.last)
  pub flushed : force ≡ true → c'.emitted ≡ max c.emitted end
  pub prompt : max c.emitted end < c'.emitted + c.policy.max_clause
  pub same :
      (c'.last ≡ c.last) × (c'.prev ≡ c.prev) × (c'.agreed ≡ c.agreed) × (c'.policy ≡ c.policy)

-- `cut` never reads out of range; the clauses that it returns are the words from the old frontier to
-- the new one, each once and in order; a forced cut leaves none up to `end`, and any cut leaves fewer
-- than `max_clause`.
pub cut-Cuts :
    (end : ℕ) (force : Bool) (c : Committer)
    → IsAnchored c
    → end ≤ length c.last
    → 0 < c.policy.max_clause
    → (cs : List Text) × (c' : Committer) × (cut end force c ≡ some (cs, c'))
      × Cuts end force c cs c'
unfolding cut cut_rest
cut-Cuts end force c a h m =
    let (more, s, q, t, x, y, z) =
      cut_loop-Tiles c.policy c.last (end - c.emitted) c.emitted c.emitted [] (omega arith)
        (omega arith) (omega arith) in
    elim (Bool-cases (force && ltb s end)) [
      | inl f ↦ (
        more ++ join (slice s end c.last) ∷ [],
        record c { emitted = end },
        rw (q, cut) (rw (f, cut_rest) refl),
        record {
          forward = ground arith;
          within = ground arith;
          text = rest-spoken c.last c.emitted s end more x (ground arith) h t;
          flushed = ground arith;
          prompt = ground arith;
          same = (refl, refl, refl, refl);
        },
      )
      | inr f ↦ (
        more,
        record c { emitted = s },
        rw (q, cut) (rw (f, cut_rest) refl),
        record {
          forward = x;
          within = omega arith;
          text = Tiles-spoken (omega arith) t;
          flushed = ground arith;
          prompt = ground arith;
          same = (refl, refl, refl, refl);
        },
      )
    ]
