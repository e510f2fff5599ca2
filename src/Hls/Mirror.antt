-- ===== src/Hls/Mirror.antt =====
-- internal/media/egress/hls/segmenter.go: the files on disk are those of the live window.
use prukka.Base.{
  ℕ, zero, suc, ◌+◌, ◌≤◌, ◌<◌, ◌≡◌, ◌⊎◌, refl, ap, subst, ◌∙◌, Bool, true, false, Option, none,
  some, List, [], ◌∷◌, ◌++◌, ltb, ◌==◌, Bool-cases, ltb→le, ltb→lt, if-split, inl, inr, arith,
  append-nil, append_assoc, Text,
}
use prukka.Hls.{
  Segmenter, written, part_text, write_part, write_parts, list_parts, ensure_part, window_start,
  evict, playlist_entry,
}
use prukka.Hls.Parts.{among, Empty, Full, Good, Pending}

written-other : (s : Segmenter) (i j : ℕ) → (i == j) ≡ false → Good s j → Good (written s i) j
written-other s i j e (inl (p, f, c)) = inl (rw e p, rw e f, c)
written-other s i j e (inr (lt, (p, f))) = inr (lt, (rw e p, rw e f))

-- A write of a part makes that part good, and leaves the others as they are.
written-Good : (s : Segmenter) (i j : ℕ) → j < s.next → (i ≡ j) ⊎ Good s j → Good (written s i) j
written-Good s i j l h = elim (Bool-cases (i == j)) [
  | inl e ↦
      let same : i ≡ j = ground arith in
      inr (l, (rw e refl, rw e (ap (λ k. some (part_text (s.cues k))) same)))
  | inr e ↦ elim h [ inl same ↦ absurd (ground arith) | inr good ↦ written-other s i j e good ]
]

-- The playlist's entries of the parts from `idx` on.
abbrev pub entries : ℕ → ℕ → Text
entries zero idx = []
entries (suc n) idx = playlist_entry idx ++ entries n (idx + 1)

module _ (can_write : ℕ → Text → Bool) where
  -- No write of a part fails.
  abbrev pub IsWritable : Type 0
  IsWritable = (idx : ℕ) (text : Text) → can_write idx text ≡ true

  write_part-written : (s : Segmenter) (i : ℕ) → IsWritable → write_part can_write s i ≡ written s i
  unfolding write_part
  write_part-written s i w = rw (w i (part_text (s.cues i))) refl

  pub write_parts-same :
      (s : Segmenter) (is : List ℕ)
      → IsWritable
      → ((write_parts can_write s is).cues ≡ s.cues) × ((write_parts can_write s is).next ≡ s.next)
  unfolding write_parts
  write_parts-same s [] w = (refl, refl)
  write_parts-same s (i ∷ is) w =
      rw (write_part-written s i w, write_parts) (write_parts-same (written s i) is w)

  write_parts-others :
      (s : Segmenter) (is : List ℕ) (j : ℕ)
      → IsWritable
      → among j is ≡ false
      → Good s j
      → Good (write_parts can_write s is) j
  unfolding write_parts
  write_parts-others s [] j w n g = g
  write_parts-others s (i ∷ is) j w n g =
      rw (write_part-written s i w, write_parts)
        (write_parts-others (written s i) is j w (ground arith)
          (written-other s i j (ground arith) g))

  write_parts-touched :
      (s : Segmenter) (is : List ℕ) (j : ℕ)
      → IsWritable
      → j < s.next
      → (among j is ≡ true) ⊎ Good s j
      → Good (write_parts can_write s is) j
  unfolding write_parts
  write_parts-touched s [] j w l (inl m) = cc
  write_parts-touched s [] j w l (inr g) = g
  write_parts-touched s (i ∷ is) j w l h =
      rw (write_part-written s i w, write_parts)
        (write_parts-touched (written s i) is j w l (after h (Bool-cases (i == j))))
    where
      after :
          (among j (i ∷ is) ≡ true) ⊎ Good s j
          → ((i == j) ≡ true) ⊎ ((i == j) ≡ false)
          → (among j is ≡ true) ⊎ Good (written s i) j
      after h (inl e) = inr (written-Good s i j l (inl (ground arith)))
      after (inl m) (inr e) = inl (ground arith)
      after (inr g) (inr e) = inr (written-other s i j e g)

  pub write_parts-Good :
      (s : Segmenter) (is : List ℕ) (j : ℕ)
      → IsWritable
      → Pending (s, is) j
      → Good (write_parts can_write s is) j
  write_parts-Good s is j w (inl (m, l)) = write_parts-touched s is j w l (inl m)
  write_parts-Good s is j w (inr (m, g)) = write_parts-others s is j w m g

  -- Listing the window writes what is missing of it, and the text lists all of it.
  pub record Lists (n idx : ℕ) (s : Segmenter) (text : Text) (out : Segmenter × Option Text)
      : Type 0 where
    pub listed : out.1 ≡ some (text ++ entries n idx)
    pub cues : out.0.cues ≡ s.cues
    pub next : out.0.next ≡ s.next
    pub good : (j : ℕ) → Good out.0 j
    pub keeps : (j : ℕ) → s.parts j ≡ true → out.0.parts j ≡ true
    pub window : (j : ℕ) → idx ≤ j → j < s.next → out.0.parts j ≡ true

  record Ensures (idx : ℕ) (s s' : Segmenter) : Type 0 where
    same_cues : s'.cues ≡ s.cues
    same_next : s'.next ≡ s.next
    all_good : (j : ℕ) → Good s' j
    keeps_parts : (j : ℕ) → s.parts j ≡ true → s'.parts j ≡ true
    has_part : s'.parts idx ≡ true

  ensure_part-Ensures :
      (s : Segmenter) (idx : ℕ)
      → IsWritable
      → idx < s.next
      → ((j : ℕ) → Good s j)
      → Ensures idx s (ensure_part can_write s idx)
  unfolding ensure_part
  ensure_part-Ensures s idx w l g =
      if-split (Ensures idx s) (s.parts idx) s (write_part can_write s idx)
        (λ e. record {
          same_cues = refl;
          same_next = refl;
          all_good = g;
          keeps_parts = λ j p. p;
          has_part = e;
        })
        (λ e. rw (write_part-written s idx w) (record {
          same_cues = refl;
          same_next = refl;
          all_good = λ j. elim (Bool-cases (idx == j)) [
            | inl q ↦ written-Good s idx j (ground arith) (inl (ground arith))
            | inr q ↦ written-other s idx j q (g j)
          ];
          keeps_parts = λ j p. ground arith;
          has_part = ground arith;
        }))

  pub list_parts-Lists :
      (n idx : ℕ) (s : Segmenter) (text : Text)
      → IsWritable
      → idx + n ≡ s.next
      → ((j : ℕ) → Good s j)
      → Lists n idx s text (list_parts can_write n idx s text)
  unfolding list_parts
  list_parts-Lists zero idx s text w e g = record {
    listed = rw append-nil refl;
    cues = refl;
    next = refl;
    good = g;
    keeps = λ j p. p;
    window = λ j a b. absurd (omega arith);
  }
  list_parts-Lists (suc n) idx s text w e g =
      let s' = ensure_part can_write s idx in
      let en = ensure_part-Ensures s idx w (omega arith) g in
      let rest =
        list_parts-Lists n (idx + 1) s' (text ++ playlist_entry idx) w (omega (arith, en.same_next))
          en.all_good in
      rw (en.has_part) (record {
        listed =
            rest.listed ∙ ap some (append_assoc text (playlist_entry idx) (entries n (idx + 1)));
        cues = rest.cues ∙ en.same_cues;
        next = rest.next ∙ en.same_next;
        good = rest.good;
        keeps = λ j p. rest.keeps j (en.keeps_parts j p);
        window = λ j a b. elim (Bool-cases (idx == j)) [
          | inl q ↦ rest.keeps j (subst (λ i. s'.parts i ≡ true) (ground arith) en.has_part)
          | inr q ↦ rest.window j (ground arith) (omega (arith, en.same_next))
        ];
      })

Good-Full : (s : Segmenter) (j : ℕ) → Good s j → s.parts j ≡ true → Full s j
Good-Full s j (inl (p, _, _)) e = cc (p, e)
Good-Full s j (inr (_, full)) e = full

-- Each part of the live window is listed and its file holds its cues; outside it there is nothing.
abbrev pub Mirrors : Segmenter → ℕ → Type 0
Mirrors s j = ((window_start s ≤ j) × (j < s.next) × Full s j) ⊎ Empty s j

pub evict-Mirrors :
    (can_remove : ℕ → Bool) (s : Segmenter) (j : ℕ)
    → can_remove j ≡ true
    → Good s j
    → (window_start s ≤ j → j < s.next → s.parts j ≡ true)
    → Mirrors (evict can_remove s) j
unfolding evict
evict-Mirrors can_remove s j w g p = elim (Bool-cases (ltb j (window_start s))) [
  | inl e ↦ inr (rw e refl, gone e g, rw e refl)
  | inr e ↦ elim (Bool-cases (ltb j s.next)) [
    | inl l ↦
        let (a, b) = Good-Full s j g (p (ltb→le _ _ e) (ltb→lt _ _ l)) in
        inl (ground arith, ground arith, (rw e a, rw e b))
    | inr l ↦ elim g [
      | inl (a, b, c) ↦ inr (rw e a, rw e b, rw e c)
      | inr (m, _) ↦ absurd (ground arith)
    ]
  ]
]
  where
    gone : ltb j (window_start s) ≡ true → Good s j → (evict can_remove s).files j ≡ none
    gone e (inl (a, b, c)) = rw (e, a) b
    gone e (inr (_, (a, b))) = rw (e, a, w) refl
