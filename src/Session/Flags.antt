-- ===== src/Session/Flags.antt =====
-- internal/core/session/flags.go and core.BedLevel: the options of a session as typed values and as the
-- wire's map. A map is the list of its entries in the order in which Go happens to visit them.
pub mod Entries
pub mod RoundTrip
use prukka.Base.{
  ℕ, ◌+◌, ◌≡◌, refl, Bool, true, false, not, ◌&&◌, ◌||◌, Option, none, some, List, [], ◌∷◌, ◌++◌,
  arith, leb, ◌==◌, if◌then◌else◌, Text, codes, is_empty, text_eq, contains, trim_func, trim_suffix,
  join_at, length, ltb,
}
use prukka.Base.Result.{Result, ok, err, first_of}
use prukka.Lang.{parse, parse_list}
use prukka.Session.Model.{
  Platform, Failure, invalid_flags, DubSelection, all_dub_langs, Session, off,
}

unfoldable pub slug_rune : ℕ → Bool
slug_rune r = (leb b'a' r && leb r b'z') || (leb b'0' r && leb r b'9') || r == b'-'

abbrev pub all_slug_runes : Text → Bool
all_slug_runes [] = true
all_slug_runes (r ∷ rs) = slug_rune r && all_slug_runes rs

abbrev pub last_is_hyphen : Text → Bool
last_is_hyphen [] = false
last_is_hyphen (r ∷ []) = r == b'-'
last_is_hyphen (r ∷ q ∷ rs) = last_is_hyphen (q ∷ rs)

-- A slug that is accepted is ASCII, so that its bytes are its code points.
unfoldable pub slug_ok : Text → Bool
unfolding slug_rune
slug_ok [] = false
slug_ok (r ∷ rs) =
    not (ltb 63 (length (r ∷ rs)) || r == b'-' || last_is_hyphen (r ∷ rs))
    && all_slug_runes (r ∷ rs)

-- The switch of a parser over its vocabulary.
abbrev pub one_of : List Text → Text → Result Failure Text
one_of vocabulary mode = if contains mode vocabulary then ok mode else err invalid_flags

abbrev pub subs_modes : List Text
subs_modes = off ∷ codes "vtt" ∷ codes "burn" ∷ []

abbrev pub dub_modes : List Text
dub_modes = [] ∷ off ∷ []

-- `retain`: the target languages that the selection names, in their order.
abbrev pub named_in : List Text → List Text → List Text
named_in named [] = []
named_in named (l ∷ ls) =
    let rest = named_in named ls in if contains l named then l ∷ rest else rest

unfoldable pub retain : List Text → DubSelection → DubSelection
retain targets d = if d.chosen then record d { langs = named_in d.langs targets } else d

-- The loop of `validate`: each name a target, and none seen before.
abbrev pub names_ok : List Text → List Text → List Text → Bool
names_ok targets seen [] = true
names_ok targets seen (l ∷ ls) =
    let rest = names_ok targets (l ∷ seen) ls in
    if not (contains l targets) || contains l seen then false else rest

unfoldable pub validate_dub : List Text → DubSelection → Option Failure
validate_dub targets d =
    if not d.chosen
    then none
    else (if names_ok targets [] d.langs then none else some invalid_flags)

-- `assign`: a value left out keeps the field.
abbrev pub assign : Text → Text → (Text → Result Failure Text) → Result Failure Text
assign field value parser =
    if is_empty value
    then ok field
    else (elim (parser value) [ ok parsed ↦ ok parsed | err e ↦ err invalid_flags ])

unfoldable pub flag_subs : Text
flag_subs = codes "subs"

unfoldable pub flag_dub : Text
flag_dub = codes "dub"

unfoldable pub flag_dub_langs : Text
flag_dub_langs = codes "dub_langs"

unfoldable pub flag_bed : Text
flag_bed = codes "bed"

unfoldable pub flag_source : Text
flag_source = codes "source"

unfoldable pub flag_pair : Text
flag_pair = codes "pair"

unfoldable pub apply_pair : Session → Text → Result Failure Session
apply_pair s value =
    if not (is_empty value) && not (slug_ok value)
    then err invalid_flags
    else ok (record s { pair = value })

-- `setFlag`.
abbrev pub set_flag : Text → Text → List (Text × Text) → List (Text × Text)
set_flag key value rest = if is_empty value then rest else (key, value) ∷ rest

unfoldable pub flags_wire : Session → List (Text × Text)
flags_wire s = set_flag flag_subs s.subs (
    set_flag flag_dub s.dub (
      set_flag flag_bed s.bed (
        set_flag flag_source s.source_lang (
          set_flag flag_pair s.pair (
            if s.dub_langs.chosen
            then (flag_dub_langs, join_at b',' s.dub_langs.langs) ∷ []
            else [])))))

-- `DubbedLangs`.
unfoldable pub dubbed_langs : Session → List Text
dubbed_langs s =
    if text_eq s.dub off
    then []
    else if not s.dub_langs.chosen
    then s.langs
    else named_in s.dub_langs.langs s.langs

module _ (p : Platform) where
  abbrev pub normal : Text → Text
  normal input = p.unicode.to_lower (trim_func p.unicode.is_space input)

  unfoldable pub parse_subs : Text → Result Failure Text
  parse_subs input = one_of subs_modes (normal input)

  unfoldable pub parse_dub : Text → Result Failure Text
  parse_dub input = one_of dub_modes (normal input)

  unfoldable pub bed_level_ok : Text → Bool
  bed_level_ok raw =
      let trimmed = trim_func p.unicode.is_space raw in
      p.unicode.equal_fold trimmed off || p.bed_figure (trim_suffix (codes "dB") trimmed)

  unfoldable pub parse_bed : Text → Result Failure Text
  unfolding bed_level_ok
  parse_bed input = if bed_level_ok input then ok input else err invalid_flags

  unfoldable pub parse_dub_langs : Text → Result Failure DubSelection
  parse_dub_langs input = elim (parse_list p.unicode input) [
    | none ↦ err invalid_flags
    | some langs ↦ ok (record { langs = langs; chosen = true })
  ]

  abbrev pub parse_lang : Text → Result Failure Text
  parse_lang input = elim (parse p.unicode input) [ none ↦ err invalid_flags | some l ↦ ok l ]

  unfoldable pub apply_flag : Session → Text → Text → Result Failure Session
  unfolding apply_pair
  apply_flag s key value =
      let subs' = assign s.subs value parse_subs in
      let dub' = assign s.dub value parse_dub in
      let bed' = assign s.bed value parse_bed in
      let source' = assign s.source_lang value parse_lang in
      if text_eq key flag_subs
      then (elim subs' [ ok v ↦ ok (record s { subs = v }) | err e ↦ err e ])
      else if text_eq key flag_dub
      then (elim dub' [ ok v ↦ ok (record s { dub = v }) | err e ↦ err e ])
      else if text_eq key flag_bed
      then (elim bed' [ ok v ↦ ok (record s { bed = v }) | err e ↦ err e ])
      else if text_eq key flag_dub_langs
      then (elim (parse_dub_langs value) [ ok d ↦ ok (record s { dub_langs = d }) | err e ↦ err e ])
      else if text_eq key flag_source
      then (elim source' [ ok v ↦ ok (record s { source_lang = v }) | err e ↦ err e ])
      else if text_eq key flag_pair
      then apply_pair s value
      else err invalid_flags

  unfoldable pub apply_flags : Session → List (Text × Text) → Result Failure Session
  unfolding apply_flag
  apply_flags s [] = ok s
  apply_flags s ((key, value) ∷ rest) = elim (apply_flag s key value) [
    | err e ↦ err e
    | ok s' ↦ apply_flags s' rest
  ]
