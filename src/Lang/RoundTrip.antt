-- ===== src/Lang/RoundTrip.antt =====
-- That a list of tags, each as it parses, is read back from its comma-separated form.
use prukka.Base.{
  ℕ, ◌≡◌, refl, sym, ap, subst, ◌∙◌, true, false, ◌||◌, some, List, [], ◌∷◌, ◌++◌, ◌⊎◌, inl, inr,
  arith, ◌==◌, Text, codes, is_empty, contains, contains_rune, trim_func, split_at, split_at-piece,
  split_at-append, each_after, join_at, replace_rune, All, Bool-cases, Option-cases, append_assoc,
  append-nil,
}
use prukka.Base.Unicode.{Unicode}
use prukka.Base.Distinct.{IsDistinct, Apart, Apart-nil, contains-append, text_eq_comm}
use prukka.Lang.{
  hyphen, registry, is_letter, alpha2, lookup, parts_of, split, tag_of, parse, parse_items,
  parse_list,
}

abbrev comma : ℕ
comma = b','

comma-is_letter : is_letter comma ≡ false
unfolding is_letter
comma-is_letter = refl

letter-ne-comma : (c : ℕ) → is_letter c ≡ true → (c == comma) ≡ false
letter-ne-comma c h = elim (Bool-cases (c == comma)) [
  | inr e ↦ e
  | inl e ↦ let same : c ≡ comma = ground arith in cc (h, ap is_letter same, comma-is_letter)
]

alpha2-comma : (t : Text) → alpha2 t ≡ true → contains_rune t comma ≡ false
unfolding alpha2
alpha2-comma [] h = cc
alpha2-comma (a ∷ []) h = cc
alpha2-comma (a ∷ b ∷ []) h =
    let x = letter-ne-comma a (ground arith) in
    let y = letter-ne-comma b (ground arith) in ground arith
alpha2-comma (a ∷ b ∷ c ∷ rest) h = cc

contains_rune-append :
    (s t : Text) (r : ℕ) → contains_rune (s ++ t) r ≡ (contains_rune s r || contains_rune t r)
contains_rune-append [] t r = refl
contains_rune-append (c ∷ cs) t r = ground (arith, contains_rune-append cs t r)

module _ (u : Unicode) where
  parts_of-letters :
      (ps : List Text) (base region : Text)
      → parts_of u ps ≡ some (base, region)
      → (alpha2 base ≡ true) × ((is_empty region ≡ true) ⊎ (alpha2 region ≡ true))
  unfolding parts_of
  parts_of-letters [] base region h = cc
  parts_of-letters (b ∷ []) base region h = (ground arith, inl (ground arith))
  parts_of-letters (b ∷ r ∷ []) base region h = (ground arith, inr (ground arith))
  parts_of-letters (b ∷ r ∷ m ∷ ms) base region h = cc

  tag_of-comma :
      (base region tag : Text)
      → alpha2 base ≡ true
      → (is_empty region ≡ true) ⊎ (alpha2 region ≡ true)
      → tag_of u (base, region) ≡ some tag
      → contains_rune tag comma ≡ false
  unfolding tag_of lookup
  tag_of-comma base region tag a r h =
      let plain = alpha2-comma base a in
      elim (Bool-cases (contains base registry)) [
        | inr e ↦ absurd (ground arith)
        | inl e ↦ elim (Bool-cases (is_empty region)) [
          | inl z ↦
              let same : base ≡ tag = ground arith in
              subst (λ t. contains_rune t comma ≡ false) same plain
          | inr z ↦
              let same : base ++ (hyphen ∷ region) ≡ tag = ground arith in
              subst (λ t. contains_rune t comma ≡ false) same
                (elim r [
                  | inl q ↦ cc (z, q)
                  | inr q ↦ ground (
                    arith,
                    contains_rune-append base (hyphen ∷ region) comma,
                    plain,
                    alpha2-comma region q,
                  )
                ])
        ]
      ]

  parse-comma : (input tag : Text) → parse u input ≡ some tag → contains_rune tag comma ≡ false
  unfolding parse split
  parse-comma input tag h =
      let trimmed = trim_func u.is_space input in
      elim (Bool-cases (u.equal_fold trimmed (codes "auto"))) [
        | inl e ↦
            let none_left : [] ≡ tag = ground arith in
            subst (λ t. contains_rune t comma ≡ false) none_left refl
        | inr e ↦ elim (Option-cases (split u trimmed)) [
          | inl z ↦ absurd (ground arith)
          | inr (q, z) ↦
              let (a, r) =
                parts_of-letters (split_at hyphen (replace_rune b'_' hyphen trimmed)) q.0 q.1
                  (ground arith) in
              tag_of-comma q.0 q.1 tag a r (ground arith)
        ]
      ]

  -- A tag that is not the automatic one is no blank item.
  parse-blank :
      (input tag : Text)
      → parse u input ≡ some tag
      → is_empty tag ≡ false
      → is_empty (trim_func u.is_space input) ≡ false
  unfolding parse split
  parse-blank input tag h n =
      let trimmed = trim_func u.is_space input in
      elim (Bool-cases (is_empty trimmed)) [
        | inr e ↦ e
        | inl z ↦ elim (Bool-cases (u.equal_fold trimmed (codes "auto"))) [
          | inl e ↦
              let none_left : [] ≡ tag = ground arith in cc (n, ap (λ t. is_empty t) none_left)
          | inr e ↦ absurd (ground arith)
        ]
      ]

  -- A concrete tag that is written as it parses.
  abbrev pub IsTag : Text → Type 0
  IsTag tag = (parse u tag ≡ some tag) × (is_empty tag ≡ false)

  split_at-join :
      (tag : Text) (tags : List Text)
      → All IsTag (tag ∷ tags)
      → split_at comma (join_at comma (tag ∷ tags)) ≡ tag ∷ tags
  split_at-join tag [] a =
      ap (split_at comma) (append-nil tag) ∙ split_at-piece comma tag (parse-comma tag tag a.0.0)
  split_at-join tag (next ∷ tags) a =
      split_at-append comma tag (next ++ each_after comma tags) (parse-comma tag tag a.0.0)
      ∙ ap (◌∷◌ tag) (split_at-join next tags a.1)

  Apart-snoc :
      (x : Text) (out xs : List Text)
      → contains x xs ≡ false
      → Apart out xs
      → Apart (out ++ x ∷ []) xs
  Apart-snoc x out [] c a = tt
  Apart-snoc x out (y ∷ ys) c a = (
    ground (arith, contains-append y out (x ∷ []), text_eq_comm x y, a.0),
    Apart-snoc x out ys (ground arith) a.1,
  )

  parse_items-tags :
      (out tags : List Text)
      → All IsTag tags
      → IsDistinct tags
      → Apart out tags
      → parse_items u out tags ≡ some (out ++ tags)
  unfolding parse_items
  parse_items-tags out [] t d a = ap some (sym (append-nil out))
  parse_items-tags out (tag ∷ tags) t d a =
      let solid = parse-blank tag tag t.0.0 t.0.1 in
      rw (solid, t.0.0, t.0.1, a.0, parse_items)
        (parse_items-tags (out ++ tag ∷ []) tags t.1 d.1 (Apart-snoc tag out tags d.0 a.1)
          ∙ ap some (append_assoc out (tag ∷ []) tags))

  -- Distinct tags, each written as it parses, come back from their comma-separated list as they went in.
  pub parse_list-join :
      (tags : List Text)
      → All IsTag tags
      → IsDistinct tags
      → parse_list u (join_at comma tags) ≡ some tags
  unfolding parse_list
  parse_list-join [] t d = refl
  parse_list-join (tag ∷ tags) t d =
      ap (parse_items u []) (split_at-join tag tags t)
      ∙ parse_items-tags [] (tag ∷ tags) t d (Apart-nil (tag ∷ tags))
