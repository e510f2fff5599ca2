-- ===== src/Session/Flags/Entries.antt =====
-- internal/core/session/flags.go: what one entry of the map of a session's options sets.
use prukka.Base.{
  ◌≡◌, refl, sym, ap, subst, ◌∙◌, Bool, ◌||◌, text_eq, true, false, List, [], ◌∷◌, ◌⊎◌, inl, inr,
  if◌then◌else◌, Text, is_empty, join_at, All,
}
use prukka.Base.Result.{Result, ok}
use prukka.Base.Distinct.{IsDistinct}
use prukka.Lang.RoundTrip.{IsTag, parse_list-join}
use prukka.Session.Model.{Platform, Failure, all_dub_langs, Session}
use prukka.Session.Flags.{
  slug_ok, assign, apply_flag, parse_subs, parse_dub, parse_bed, parse_dub_langs, parse_lang,
  apply_pair, apply_flags, flag_subs, flag_dub, flag_bed, flag_source, flag_pair, flag_dub_langs,
}

-- The options of one session, on another.
abbrev pub with_options : Session → Session → Session
with_options t s = record t {
  subs = s.subs;
  dub = s.dub;
  bed = s.bed;
  source_lang = s.source_lang;
  pair = s.pair;
  dub_langs = s.dub_langs;
}

-- A session whose options are all left at their zero values.
abbrev pub blank : Session → Session
blank t = record t {
  subs = [];
  dub = [];
  bed = [];
  source_lang = [];
  pair = [];
  dub_langs = all_dub_langs;
}

-- The entries that a map of the options of `s` can hold.
abbrev pub IsEntry : Session → Text × Text → Type 0
IsEntry s e =
    ((e ≡ (flag_subs, s.subs)) × (is_empty s.subs ≡ false))
    ⊎ ((e ≡ (flag_dub, s.dub)) × (is_empty s.dub ≡ false))
    ⊎ ((e ≡ (flag_bed, s.bed)) × (is_empty s.bed ≡ false))
    ⊎ ((e ≡ (flag_source, s.source_lang)) × (is_empty s.source_lang ≡ false))
    ⊎ ((e ≡ (flag_pair, s.pair)) × (is_empty s.pair ≡ false))
    ⊎ ((e ≡ (flag_dub_langs, join_at b',' s.dub_langs.langs)) × (s.dub_langs.chosen ≡ true))

abbrev pub names : Text → List (Text × Text) → Bool
names key [] = false
names key ((k, v) ∷ rest) = text_eq k key || names key rest

-- The options of `t`, but those of `s` where the map names them.
abbrev pub merged : Session → Session → List (Text × Text) → Session
merged s t flags = record t {
  subs = if names flag_subs flags then s.subs else t.subs;
  dub = if names flag_dub flags then s.dub else t.dub;
  bed = if names flag_bed flags then s.bed else t.bed;
  source_lang = if names flag_source flags then s.source_lang else t.source_lang;
  pair = if names flag_pair flags then s.pair else t.pair;
  dub_langs = if names flag_dub_langs flags then s.dub_langs else t.dub_langs;
}

if_same : {A : Type 0} (b : Bool) (x : A) → (if b then x else x) ≡ x
if_same true x = refl
if_same false x = refl

module _ (p : Platform) where
  -- An option that is left out, or is what its parser makes of it.
  abbrev pub IsFixed : (Text → Result Failure Text) → Text → Type 0
  IsFixed parser v = (is_empty v ≡ true) ⊎ ((is_empty v ≡ false) × (parser v ≡ ok v))

  -- Options as they come out of their parsers.
  pub record IsParsed (s : Session) : Type 0 where
    pub subs : IsFixed (parse_subs p) s.subs
    pub dub : IsFixed (parse_dub p) s.dub
    pub bed : IsFixed (parse_bed p) s.bed
    pub source_lang : IsFixed (parse_lang p) s.source_lang
    pub pair : (is_empty s.pair ≡ true) ⊎ ((is_empty s.pair ≡ false) × (slug_ok s.pair ≡ true))
    pub dub_langs :
        ((s.dub_langs.chosen ≡ false) × (s.dub_langs.langs ≡ []))
        ⊎ ((s.dub_langs.chosen ≡ true)
            × All (IsTag p.unicode) s.dub_langs.langs
            × IsDistinct s.dub_langs.langs)

  assigned :
      (old v : Text) (parser : Text → Result Failure Text)
      → is_empty v ≡ false
      → IsFixed parser v
      → assign old v parser ≡ ok v
  assigned old v parser e (inl z) = cc (e, z)
  assigned old v parser e (inr (_, f)) = rw (e, f) refl

  -- An entry of the map applies, and sets its own option and no other.
  abbrev Sets : Session → Session → Text × Text → List (Text × Text) → Type 0
  Sets s t e rest =
      (t' : Session) × (apply_flag p t e.0 e.1 ≡ ok t') × (merged s t' rest ≡ merged s t (e ∷ rest))

  subs-Sets :
      (s t : Session) (rest : List (Text × Text))
      → IsParsed s
      → is_empty s.subs ≡ false
      → Sets s t (flag_subs, s.subs) rest
  unfolding apply_flag flag_subs flag_dub flag_bed flag_source flag_pair flag_dub_langs
  subs-Sets s t rest k e = (
    record t { subs = s.subs },
    rw (assigned t.subs s.subs (parse_subs p) e k.subs) refl,
    ap (λ x. record (merged s t rest) { subs = x }) (if_same (names flag_subs rest) s.subs),
  )

  dub-Sets :
      (s t : Session) (rest : List (Text × Text))
      → IsParsed s
      → is_empty s.dub ≡ false
      → Sets s t (flag_dub, s.dub) rest
  unfolding apply_flag flag_subs flag_dub flag_bed flag_source flag_pair flag_dub_langs
  dub-Sets s t rest k e = (
    record t { dub = s.dub },
    rw (assigned t.dub s.dub (parse_dub p) e k.dub) refl,
    ap (λ x. record (merged s t rest) { dub = x }) (if_same (names flag_dub rest) s.dub),
  )

  bed-Sets :
      (s t : Session) (rest : List (Text × Text))
      → IsParsed s
      → is_empty s.bed ≡ false
      → Sets s t (flag_bed, s.bed) rest
  unfolding apply_flag flag_subs flag_dub flag_bed flag_source flag_pair flag_dub_langs
  bed-Sets s t rest k e = (
    record t { bed = s.bed },
    rw (assigned t.bed s.bed (parse_bed p) e k.bed) refl,
    ap (λ x. record (merged s t rest) { bed = x }) (if_same (names flag_bed rest) s.bed),
  )

  source-Sets :
      (s t : Session) (rest : List (Text × Text))
      → IsParsed s
      → is_empty s.source_lang ≡ false
      → Sets s t (flag_source, s.source_lang) rest
  unfolding apply_flag flag_subs flag_dub flag_bed flag_source flag_pair flag_dub_langs
  source-Sets s t rest k e = (
    record t { source_lang = s.source_lang },
    rw (assigned t.source_lang s.source_lang (parse_lang p) e k.source_lang) refl,
    ap (λ x. record (merged s t rest) { source_lang = x })
        (if_same (names flag_source rest) s.source_lang),
  )

  pair-Sets :
      (s t : Session) (rest : List (Text × Text))
      → IsParsed s
      → is_empty s.pair ≡ false
      → Sets s t (flag_pair, s.pair) rest
  unfolding apply_flag apply_pair flag_subs flag_dub flag_bed flag_source flag_pair flag_dub_langs
  pair-Sets s t rest k e = (
    record t { pair = s.pair },
    elim k.pair [ inl z ↦ cc (e, z) | inr (z, ok_) ↦ rw (z, ok_) refl ],
    ap (λ x. record (merged s t rest) { pair = x }) (if_same (names flag_pair rest) s.pair),
  )

  dub_langs-Sets :
      (s t : Session) (rest : List (Text × Text))
      → IsParsed s
      → s.dub_langs.chosen ≡ true
      → Sets s t (flag_dub_langs, join_at b',' s.dub_langs.langs) rest
  unfolding apply_flag parse_dub_langs flag_subs flag_dub flag_bed flag_source flag_pair
      flag_dub_langs
  dub_langs-Sets s t rest k e = (
    record t { dub_langs = s.dub_langs },
    elim k.dub_langs [
      | inl (z, _) ↦ cc (e, z)
      | inr (_, tags, distinct) ↦ rw (parse_list-join p.unicode s.dub_langs.langs tags distinct) (
          ap (λ b. ok (record t { dub_langs = record { langs = s.dub_langs.langs; chosen = b } }))
            (sym e))
    ],
    ap (λ x. record (merged s t rest) { dub_langs = x })
        (if_same (names flag_dub_langs rest) s.dub_langs),
  )

  IsEntry-Sets :
      (s t : Session) (e : Text × Text) (rest : List (Text × Text))
      → IsParsed s
      → IsEntry s e
      → Sets s t e rest
  IsEntry-Sets s t e rest k (inl (q, h)) =
      subst (λ x. Sets s t x rest) (sym q) (subs-Sets s t rest k h)
  IsEntry-Sets s t e rest k (inr (inl (q, h))) =
      subst (λ x. Sets s t x rest) (sym q) (dub-Sets s t rest k h)
  IsEntry-Sets s t e rest k (inr (inr (inl (q, h)))) =
      subst (λ x. Sets s t x rest) (sym q) (bed-Sets s t rest k h)
  IsEntry-Sets s t e rest k (inr (inr (inr (inl (q, h))))) =
      subst (λ x. Sets s t x rest) (sym q) (source-Sets s t rest k h)
  IsEntry-Sets s t e rest k (inr (inr (inr (inr (inl (q, h)))))) =
      subst (λ x. Sets s t x rest) (sym q) (pair-Sets s t rest k h)
  IsEntry-Sets s t e rest k (inr (inr (inr (inr (inr (q, h)))))) =
      subst (λ x. Sets s t x rest) (sym q) (dub_langs-Sets s t rest k h)

  pub apply_flags-merged :
      (s t : Session) (flags : List (Text × Text))
      → IsParsed s
      → All (IsEntry s) flags
      → apply_flags p t flags ≡ ok (merged s t flags)
  unfolding apply_flags
  apply_flags-merged s t [] k h = refl
  apply_flags-merged s t (e ∷ rest) k h =
      let (t', q, same) = IsEntry-Sets s t e rest k h.0 in
      rw (q, apply_flags) (apply_flags-merged s t' rest k h.1 ∙ ap ok same)
