-- ===== src/Session/Flags/RoundTrip.antt =====
-- That the options of a session are read back from the map that they are written to.
use prukka.Base.{
  ◌≡◌, refl, sym, ap, subst, ◌∙◌, Bool, ◌||◌, ◌&&◌, not, Bool-cases, if-split, arith, text_eq, true,
  false, List, [], ◌∷◌, inl, inr, if◌then◌else◌, Text, is_empty, join_at, All,
}
use mathlib.Core.List.{Permᴰ}
use prukka.Base.Result.{ok}
use prukka.Session.Model.{Platform, all_dub_langs, Session}
use prukka.Session.Flags.{
  set_flag, flags_wire, apply_flags, flag_subs, flag_dub, flag_bed, flag_source, flag_pair,
  flag_dub_langs,
}
use prukka.Session.Flags.Entries.{
  with_options, blank, IsEntry, names, merged, IsParsed, apply_flags-merged,
}

names-set_flag :
    (key k v : Text) (rest : List (Text × Text))
    → names key (set_flag k v rest) ≡ ((text_eq k key && not (is_empty v)) || names key rest)
names-set_flag key k v rest = elim (Bool-cases (is_empty v)) [
  | inl e ↦ ground arith
  | inr e ↦ ground arith
]

names-flags_wire :
    (s : Session) (key : Text)
    → names key (flags_wire s) ≡ (
        (text_eq flag_subs key && not (is_empty s.subs))
        || ((text_eq flag_dub key && not (is_empty s.dub))
            || ((text_eq flag_bed key && not (is_empty s.bed))
                || ((text_eq flag_source key && not (is_empty s.source_lang))
                    || ((text_eq flag_pair key && not (is_empty s.pair))
                        || (text_eq flag_dub_langs key && s.dub_langs.chosen))))))
unfolding flags_wire
names-flags_wire s key =
    let last =
      if s.dub_langs.chosen then (flag_dub_langs, join_at b',' s.dub_langs.langs) ∷ [] else [] in
    let pair = set_flag flag_pair s.pair last in
    let source = set_flag flag_source s.source_lang pair in
    let bed = set_flag flag_bed s.bed source in
    let dub = set_flag flag_dub s.dub bed in
    names-set_flag key flag_subs s.subs dub
    ∙ ap (or_after flag_subs s.subs) (
        names-set_flag key flag_dub s.dub bed
        ∙ ap (or_after flag_dub s.dub) (
            names-set_flag key flag_bed s.bed source
            ∙ ap (or_after flag_bed s.bed) (
                names-set_flag key flag_source s.source_lang pair
                ∙ ap (or_after flag_source s.source_lang) (
                    names-set_flag key flag_pair s.pair last
                    ∙ ap (or_after flag_pair s.pair) names_last))))
  where
    or_after : Text → Text → Bool → Bool
    or_after k v b = (text_eq k key && not (is_empty v)) || b

    names_last :
        names key
          (if s.dub_langs.chosen then (flag_dub_langs, join_at b',' s.dub_langs.langs) ∷ [] else [])
        ≡ (text_eq flag_dub_langs key && s.dub_langs.chosen)
    names_last = elim (Bool-cases s.dub_langs.chosen) [
      | inl e ↦ ground arith
      | inr e ↦ ground arith
    ]

or-swap : (a b c : Bool) → (a || (b || c)) ≡ (b || (a || c))
or-swap true true c = refl
or-swap true false c = refl
or-swap false true c = refl
or-swap false false c = refl

-- The order of the entries does not matter to which options a map names, nor to what its entries are.
Permᴰ-names : (key : Text) {xs ys : List (Text × Text)} → Permᴰ xs ys → names key xs ≡ names key ys
Permᴰ-names key Permᴰ.nil = refl
Permᴰ-names key (Permᴰ.cons {b = b} {l₁ = l} e d) =
    ap (λ x. text_eq x.0 key || names key l) e ∙ ap (λ r. text_eq b.0 key || r) (Permᴰ-names key d)
Permᴰ-names key (Permᴰ.swap {a = a} {b = b} {a' = a'} {l = l} e f) =
    or-swap (text_eq a.0 key) (text_eq b.0 key) (names key l)
    ∙ ap (λ x. text_eq x.0 key || (text_eq a.0 key || names key l)) f
    ∙ ap (λ x. text_eq a'.0 key || (text_eq x.0 key || names key l)) e
Permᴰ-names key (Permᴰ.trans d₁ d₂) = Permᴰ-names key d₁ ∙ Permᴰ-names key d₂

Permᴰ-All :
    (P : Text × Text → Type 0) {xs ys : List (Text × Text)} → Permᴰ xs ys → All P ys → All P xs
Permᴰ-All P Permᴰ.nil h = tt
Permᴰ-All P (Permᴰ.cons e d) h = (subst P (sym e) h.0, Permᴰ-All P d h.1)
Permᴰ-All P (Permᴰ.swap e f) h = (subst P (sym e) h.1.0, (subst P (sym f) h.0, h.1.1))
Permᴰ-All P (Permᴰ.trans d₁ d₂) h = Permᴰ-All P d₁ (Permᴰ-All P d₂ h)

set_flag-All :
    (s : Session) (k v : Text) (rest : List (Text × Text))
    → (is_empty v ≡ false → IsEntry s (k, v))
    → All (IsEntry s) rest
    → All (IsEntry s) (set_flag k v rest)
set_flag-All s k v rest entry h =
    if-split (All (IsEntry s)) (is_empty v) rest ((k, v) ∷ rest) (λ _. h) (λ e. (entry e, h))

flags_wire-All : (s : Session) → All (IsEntry s) (flags_wire s)
unfolding flags_wire
flags_wire-All s =
    let last =
      if s.dub_langs.chosen then (flag_dub_langs, join_at b',' s.dub_langs.langs) ∷ [] else [] in
    let pair = set_flag flag_pair s.pair last in
    let source = set_flag flag_source s.source_lang pair in
    let bed = set_flag flag_bed s.bed source in
    let dub = set_flag flag_dub s.dub bed in
    set_flag-All s flag_subs s.subs dub (λ e. inl (refl, e))
      (set_flag-All s flag_dub s.dub bed (λ e. inr (inl (refl, e)))
        (set_flag-All s flag_bed s.bed source (λ e. inr (inr (inl (refl, e))))
          (set_flag-All s flag_source s.source_lang pair (λ e. inr (inr (inr (inl (refl, e)))))
            (set_flag-All s flag_pair s.pair last (λ e. inr (inr (inr (inr (inl (refl, e))))))
              (if-split (All (IsEntry s)) s.dub_langs.chosen
                ((flag_dub_langs, join_at b',' s.dub_langs.langs) ∷ []) []
                (λ e. (inr (inr (inr (inr (inr (refl, e))))), tt)) (λ _. tt))))))

kept : (v : Text) → (if not (is_empty v) then v else []) ≡ v
kept [] = refl
kept (c ∷ cs) = refl

-- The options that the six answers pick.
abbrev picked : Session → Session → (b₁ b₂ b₃ b₄ b₅ b₆ : Bool) → Session
picked t s b₁ b₂ b₃ b₄ b₅ b₆ = record t {
  subs = if b₁ then s.subs else [];
  dub = if b₂ then s.dub else [];
  bed = if b₃ then s.bed else [];
  source_lang = if b₄ then s.source_lang else [];
  pair = if b₅ then s.pair else [];
  dub_langs = if b₆ then s.dub_langs else all_dub_langs;
}

or-false : (b : Bool) → (b || false) ≡ b
or-false true = refl
or-false false = refl

module _ (p : Platform) where
  kept_langs :
      (s : Session)
      → IsParsed p s
      → (if s.dub_langs.chosen then s.dub_langs else all_dub_langs) ≡ s.dub_langs
  kept_langs s k = elim k.dub_langs [
    | inl (e, l) ↦ rw e (ap (λ ls. record { langs = ls; chosen = false }) (sym l))
    | inr (e, _, _) ↦ rw e refl
  ]

  merged-flags_wire :
      (t s : Session) (flags : List (Text × Text))
      → IsParsed p s
      → Permᴰ flags (flags_wire s)
      → merged s (blank t) flags ≡ with_options t s
  unfolding flag_subs flag_dub flag_bed flag_source flag_pair flag_dub_langs
  merged-flags_wire t s flags k d =
      let n₁ : names flag_subs flags ≡ not (is_empty s.subs) =
        Permᴰ-names flag_subs d ∙ names-flags_wire s flag_subs ∙ or-false _ in
      let n₂ : names flag_dub flags ≡ not (is_empty s.dub) =
        Permᴰ-names flag_dub d ∙ names-flags_wire s flag_dub ∙ or-false _ in
      let n₃ : names flag_bed flags ≡ not (is_empty s.bed) =
        Permᴰ-names flag_bed d ∙ names-flags_wire s flag_bed ∙ or-false _ in
      let n₄ : names flag_source flags ≡ not (is_empty s.source_lang) =
        Permᴰ-names flag_source d ∙ names-flags_wire s flag_source ∙ or-false _ in
      let n₅ : names flag_pair flags ≡ not (is_empty s.pair) =
        Permᴰ-names flag_pair d ∙ names-flags_wire s flag_pair ∙ or-false _ in
      let n₆ : names flag_dub_langs flags ≡ s.dub_langs.chosen =
        Permᴰ-names flag_dub_langs d ∙ names-flags_wire s flag_dub_langs in
      ap
        (λ b.
          picked t s b (names flag_dub flags) (names flag_bed flags) (names flag_source flags)
            (names flag_pair flags) (names flag_dub_langs flags))
        n₁
      ∙ rw
          (
            n₂,
            n₃,
            n₄,
            n₅,
            n₆,
            kept s.subs,
            kept s.dub,
            kept s.bed,
            kept s.source_lang,
            kept s.pair,
            kept_langs s k,
          )
          refl

  -- Options as they come out of their parsers survive the wire, in whatever order the map is visited:
  -- applying the entries that they are written to, in any order, to a session without options gives that
  -- session with exactly those options.
  pub apply_flags-flags_wire :
      (t s : Session) (flags : List (Text × Text))
      → IsParsed p s
      → Permᴰ flags (flags_wire s)
      → apply_flags p (blank t) flags ≡ ok (with_options t s)
  apply_flags-flags_wire t s flags k order =
      apply_flags-merged p s (blank t) flags k (Permᴰ-All (IsEntry s) order (flags_wire-All s))
      ∙ ap ok (merged-flags_wire t s flags k order)
