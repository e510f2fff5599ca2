-- ===== src/Lang/Laws.antt =====
-- What parsing a tag or a list of tags yields: only tags of the registry, each once.
use prukka.Base.{
  ℕ, ◌≡◌, refl, sym, ap, subst, ◌∙◌, true, false, some, List, [], ◌∷◌, ◌++◌, ◌⊎◌, inl, inr, arith,
  ◌==◌, if◌then◌else◌, Text, codes, is_empty, contains, trim_func, split_at, replace_rune, All,
  All-append, Bool-cases, Option-cases,
}
use prukka.Base.Unicode.{Unicode}
use prukka.Base.Distinct.{IsDistinct, IsDistinct-snoc}
use prukka.Lang.{
  lang_auto, hyphen, base_of, registry, is_letter, alpha2, lookup, parts_of, split, tag_of, parse,
  parse_items, parse_list,
}

-- The base of the tag is one of the registry's.
abbrev pub IsRegistered : Text → Type 0
IsRegistered tag = contains (base_of tag) registry ≡ true

hyphen-is_letter : is_letter hyphen ≡ false
unfolding is_letter
hyphen-is_letter = refl

letter-ne-hyphen : (c : ℕ) → is_letter c ≡ true → (c == hyphen) ≡ false
letter-ne-hyphen c h = elim (Bool-cases (c == hyphen)) [
  | inr e ↦ e
  | inl e ↦ let same : c ≡ hyphen = ground arith in cc (h, ap is_letter same, hyphen-is_letter)
]

-- A base of two letters is what stands before the hyphen, and is all there is without one.
base_of-alpha2 :
    (base region : Text)
    → alpha2 base ≡ true
    → (base_of base ≡ base) × (base_of (base ++ (hyphen ∷ region)) ≡ base)
unfolding alpha2 base_of
base_of-alpha2 [] region h = cc
base_of-alpha2 (a ∷ []) region h = cc
base_of-alpha2 (a ∷ b ∷ []) region h =
    let x = letter-ne-hyphen a (ground arith) in
    let y = letter-ne-hyphen b (ground arith) in (ground arith, ground arith)
base_of-alpha2 (a ∷ b ∷ c ∷ rest) region h = cc

module _ (u : Unicode) where
  parts_of-alpha2 :
      (ps : List Text) (base region : Text)
      → parts_of u ps ≡ some (base, region)
      → alpha2 base ≡ true
  unfolding parts_of
  parts_of-alpha2 [] base region h = cc
  parts_of-alpha2 (b ∷ []) base region h = ground arith
  parts_of-alpha2 (b ∷ r ∷ []) base region h = ground arith
  parts_of-alpha2 (b ∷ r ∷ m ∷ ms) base region h = cc

  split-alpha2 :
      (input base region : Text) → split u input ≡ some (base, region) → alpha2 base ≡ true
  unfolding split
  split-alpha2 input base region h =
      ground (arith, parts_of-alpha2 (split_at hyphen (replace_rune b'_' hyphen input)) base region)

  tag_of-IsRegistered :
      (base region tag : Text)
      → alpha2 base ≡ true
      → tag_of u (base, region) ≡ some tag
      → IsRegistered tag
  unfolding tag_of lookup
  tag_of-IsRegistered base region tag a h =
      let (alone, cut) = base_of-alpha2 base region a in
      elim (Bool-cases (contains base registry)) [
        | inr e ↦ absurd (ground arith)
        | inl e ↦ elim (Bool-cases (is_empty region)) [
          | inl z ↦
              let same : tag ≡ base = ground arith in
              subst (λ b. contains b registry ≡ true) (sym (ap base_of same ∙ alone)) e
          | inr z ↦
              let same : tag ≡ base ++ (hyphen ∷ region) = ground arith in
              subst (λ b. contains b registry ≡ true) (sym (ap base_of same ∙ cut)) e
        ]
      ]

  -- Every tag that is accepted, but for the automatic one, has a base of the registry.
  pub parse-IsRegistered :
      (input tag : Text) → parse u input ≡ some tag → (tag ≡ lang_auto) ⊎ IsRegistered tag
  unfolding parse
  parse-IsRegistered input tag h =
      let trimmed = trim_func u.is_space input in
      elim (Bool-cases (u.equal_fold trimmed (codes "auto"))) [
        | inl e ↦ inl (ground arith)
        | inr e ↦ elim (Option-cases (split u trimmed)) [
          | inl z ↦ absurd (ground arith)
          | inr (p, z) ↦
              inr (tag_of-IsRegistered p.0 p.1 tag (split-alpha2 trimmed p.0 p.1 z) (ground arith))
        ]
      ]

  -- What the loop of `ParseList` keeps of the tags collected so far.
  pub record IsCollected (tags : List Text) : Type 0 where
    pub distinct : IsDistinct tags
    pub registered : All IsRegistered tags

  collect-IsCollected :
      (out : List Text) (tag : Text)
      → IsCollected out
      → IsRegistered tag
      → IsCollected (if contains tag out then out else out ++ tag ∷ [])
  collect-IsCollected out tag c r = elim (Bool-cases (contains tag out)) [
    | inl e ↦ rw e c
    | inr e ↦ rw e (record {
      distinct = IsDistinct-snoc out tag e c.distinct;
      registered = All-append IsRegistered out (tag ∷ []) c.registered (r, tt);
    })
  ]

  parse_items-IsCollected :
      (out items tags : List Text)
      → IsCollected out
      → parse_items u out items ≡ some tags
      → IsCollected tags
  unfolding parse_items
  parse_items-IsCollected out [] tags c h = subst IsCollected (ground arith) c
  parse_items-IsCollected out (item ∷ items) tags c h =
      elim (Bool-cases (is_empty (trim_func u.is_space item))) [
        | inl e ↦ parse_items-IsCollected out items tags c (rw e at h)
        | inr e ↦ elim (Option-cases (parse u item)) [
          | inl z ↦ absurd (ground arith)
          | inr (tag, z) ↦ elim (Bool-cases (is_empty tag)) [
            | inl auto ↦ absurd (ground arith)
            | inr named ↦
                let more = if contains tag out then out else out ++ tag ∷ [] in
                elim (parse-IsRegistered item tag z) [
                  | inl auto ↦ cc (named, auto)
                  | inr r ↦
                      parse_items-IsCollected more items tags (collect-IsCollected out tag c r)
                        (ground arith)
                ]
          ]
        ]
      ]

  -- A list of tags that parses yields no tag twice, and only tags with a base of the registry.
  pub parse_list-IsCollected :
      (csv : Text) (tags : List Text) → parse_list u csv ≡ some tags → IsCollected tags
  unfolding parse_list
  parse_list-IsCollected csv tags h =
      parse_items-IsCollected [] (split_at b',' csv) tags
        (record { distinct = tt; registered = tt }) h
