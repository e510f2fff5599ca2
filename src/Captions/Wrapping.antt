-- ===== src/Captions/Wrapping.antt =====
-- internal/media/egress/vtt/layout.go: what `split` and `wrap` promise of the lines of a cue.
use prukka.Base.{
  ℕ, zero, suc, ◌+◌, ◌≤◌, ◌<◌, ◌≡◌, refl, sym, ap, ◌∙◌, Bool, true, List, [], ◌∷◌, ◌++◌, inl, inr,
  arith, leb, leb→le, ltb, Bool-cases, length, drop, All, length-take, length-drop,
  take-append-drop, All-append, Text, is_empty, space, fields_from, append-nil, append_assoc,
  length-append,
}
use prukka.Base.Flatten.{flatten, flatten-append, bare, bare-append, bare-one, fields_from-bare}
use prukka.Captions.{split_rounds, split, Filling, place, place_all, fill_words, flush, wrap}

abbrev pub Fits : ℕ → Text → Type 0
Fits width line = length line ≤ width

-- `split` loses nothing, and the rounds it is given are enough for pieces that fit.
split_rounds-flatten : (n width : ℕ) (w : Text) → flatten (split_rounds n width w) ≡ w
unfolding split_rounds
split_rounds-flatten zero width w = append-nil w
split_rounds-flatten (suc n) width w = elim (Bool-cases (ltb width (length w))) [
  | inl e ↦ rw (e, split_rounds-flatten n width (drop width w)) (take-append-drop width w)
  | inr e ↦ rw e (append-nil w)
]

split_rounds-Fits :
    (n width : ℕ) (w : Text)
    → 0 < width
    → length w ≤ n + width
    → All (Fits width) (split_rounds n width w)
unfolding split_rounds
split_rounds-Fits zero width w p h = (omega arith, tt)
split_rounds-Fits (suc n) width w p h = elim (Bool-cases (ltb width (length w))) [
  | inl e ↦ rw e (
    omega (arith, length-take width w),
    split_rounds-Fits n width (drop width w) p (omega (arith, length-drop width w)),
  )
  | inr e ↦ rw e (ground arith, tt)
]

split-flatten : (w : Text) (width : ℕ) → flatten (split w width) ≡ w
unfolding split
split-flatten w width = elim (Bool-cases (leb (length w) width)) [
  | inl e ↦ rw e (append-nil w)
  | inr e ↦ rw e (split_rounds-flatten (length w) width w)
]

split-Fits : (w : Text) (width : ℕ) → 0 < width → All (Fits width) (split w width)
unfolding split
split-Fits w width p = elim (Bool-cases (leb (length w) width)) [
  | inl e ↦ rw e (ground arith, tt)
  | inr e ↦ rw e (split_rounds-Fits (length w) width w p (omega arith))
]

is_empty-nil : (w : Text) → is_empty w ≡ true → w ≡ []
is_empty-nil [] e = refl
is_empty-nil (c ∷ cs) e = cc

module _ (p : ℕ → Bool) (width : ℕ) where
  -- What a filling has taken in, less the spaces.
  abbrev taken : Filling → Text
  taken f = bare p (flatten f.closed ++ f.current)

  record Within (f : Filling) : Type 0 where
    closed_fits : All (Fits width) f.closed
    current_fits : Fits width f.current

  place-Within :
      (f : Filling) (piece : Text) → Fits width piece → Within f → Within (place width f piece)
  unfolding place
  place-Within f piece h i = elim (Bool-cases (is_empty f.current)) [
    | inl e ↦ rw e (record { closed_fits = i.closed_fits; current_fits = h })
    | inr e ↦ elim (Bool-cases (leb (length f.current + 1 + length piece) width)) [
      | inl l ↦
          rw (e, l)
            (record {
              closed_fits = i.closed_fits;
              current_fits = omega (arith, length-append f.current (space ∷ piece), leb→le _ _ l);
            })
      | inr l ↦
          rw (e, l)
            (record {
              closed_fits =
                  All-append (Fits width) f.closed (f.current ∷ []) i.closed_fits
                    (i.current_fits, tt);
              current_fits = h;
            })
    ]
  ]

  place-taken :
      (f : Filling) (piece : Text)
      → p space ≡ true
      → taken (place width f piece) ≡ taken f ++ bare p piece
  unfolding place
  place-taken f piece s = elim (Bool-cases (is_empty f.current)) [
    | inl e ↦ rw e (simp (bare-append, is_empty-nil f.current e, append-nil))
    | inr e ↦ elim (Bool-cases (leb (length f.current + 1 + length piece) width)) [
      | inl l ↦
          rw (e, l)
            (simp (bare-append, bare-append p (space ∷ []) piece, bare-one p space s, append_assoc))
      | inr l ↦ rw (e, l) (simp (bare-append, flatten-append, append-nil, append_assoc))
    ]
  ]

  place_all-Within :
      (f : Filling) (pieces : List Text)
      → All (Fits width) pieces
      → Within f
      → Within (place_all width f pieces)
  unfolding place_all
  place_all-Within f [] h i = i
  place_all-Within f (q ∷ pieces) h i =
      place_all-Within (place width f q) pieces h.1 (place-Within f q h.0 i)

  place_all-taken :
      (f : Filling) (pieces : List Text)
      → p space ≡ true
      → taken (place_all width f pieces) ≡ taken f ++ bare p (flatten pieces)
  unfolding place_all
  place_all-taken f [] s = unfold bare in sym (append-nil _)
  place_all-taken f (q ∷ pieces) s =
      place_all-taken (place width f q) pieces s
      ∙ rw (place-taken f q s, bare-append p q (flatten pieces), append_assoc (taken f))

  fill_words-Within :
      (f : Filling) (words : List Text) → 0 < width → Within f → Within (fill_words width f words)
  unfolding fill_words
  fill_words-Within f [] w i = i
  fill_words-Within f (q ∷ words) w i =
      fill_words-Within (place_all width f (split q width)) words w
        (place_all-Within f (split q width) (split-Fits q width w) i)

  fill_words-taken :
      (f : Filling) (words : List Text)
      → p space ≡ true
      → taken (fill_words width f words) ≡ taken f ++ bare p (flatten words)
  unfolding fill_words
  fill_words-taken f [] s = unfold bare in sym (append-nil _)
  fill_words-taken f (q ∷ words) s =
      fill_words-taken (place_all width f (split q width)) words s
      ∙ rw (
        place_all-taken f (split q width) s,
        split-flatten,
        bare-append p q (flatten words),
        append_assoc (taken f),
      )

  flush-Fits : (f : Filling) → Within f → All (Fits width) (flush f)
  unfolding flush
  flush-Fits f i = elim (Bool-cases (is_empty f.current)) [
    | inl e ↦ rw e i.closed_fits
    | inr e ↦
        rw e (All-append (Fits width) f.closed (f.current ∷ []) i.closed_fits (i.current_fits, tt))
  ]

  flush-flatten : (f : Filling) → flatten (flush f) ≡ flatten f.closed ++ f.current
  unfolding flush
  flush-flatten f = elim (Bool-cases (is_empty f.current)) [
    | inl e ↦ rw e (rw (is_empty-nil f.current e, append-nil))
    | inr e ↦ rw e (rw (flatten-append, append-nil))
  ]

  abbrev nothing : Filling
  nothing = record { closed = []; current = [] }

  -- Every line of a wrapped text fits.
  pub wrap-Fits : (text : Text) → 0 < width → All (Fits width) (wrap p text width)
  unfolding wrap
  wrap-Fits text w = flush-Fits (fill_words width nothing (fields_from p [] text)) (
      fill_words-Within nothing (fields_from p [] text) w
        (record { closed_fits = tt; current_fits = omega arith }))

  -- A wrapped text has lost, won and moved nothing but spaces.
  pub wrap-bare :
      (text : Text) → p space ≡ true → bare p (flatten (wrap p text width)) ≡ bare p text
  unfolding wrap bare
  wrap-bare text s =
      ap (bare p) (flush-flatten (fill_words width nothing (fields_from p [] text)))
      ∙ fill_words-taken nothing (fields_from p [] text) s
      ∙ fields_from-bare p [] text
