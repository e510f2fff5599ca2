-- ===== src/Session/Validate.antt =====
-- internal/core/session/session.go and flags.go: the checks that the store makes on every write.
pub mod Languages
use prukka.Base.{
  ℕ, ◌+◌, ◌≡◌, refl, Bool, true, false, not, ◌&&◌, ◌||◌, Option, none, some, List, [], ◌∷◌, arith,
  leb, ltb, ◌==◌, if◌then◌else◌, Text, codes, is_empty, text_eq, contains,
}
use prukka.Base.Int.{ℤ, pos, negsuc}
use prukka.Base.Result.{Result, ok, err, first_of}
use prukka.Lang.{parse}
use prukka.Session.Model.{
  Platform, Failure, invalid_slug, unknown_profile, invalid_delay, no_languages, invalid_language,
  invalid_flags, Session, off, max_session_delay,
}
use prukka.Session.Source.{validate_source}
use prukka.Session.Flags.{slug_ok, normal, parse_subs, parse_dub, parse_bed, validate_dub, one_of}

abbrev pub reserved_slugs : List Text
reserved_slugs = codes "ui" ∷ codes "api" ∷ codes "healthz" ∷ codes "metrics" ∷ []

abbrev pub profiles : List Text
profiles = codes "broadcast" ∷ codes "call" ∷ []

-- The error of a parser whose value is dropped.
abbrev pub failure_of : Result Failure Text → Option Failure
failure_of (ok v) = none
failure_of (err e) = some e

unfoldable pub validate_limits : Session → Option Failure
validate_limits s = elim s.delay [
  | pos d ↦ if ltb max_session_delay d then some invalid_delay else none
  | negsuc d ↦ some invalid_delay
]

-- A one-sided pair is accepted.
unfoldable pub validate_pair : Session → Option Failure
validate_pair s =
    if is_empty s.pair
    then none
    else if not (slug_ok s.pair)
    then some invalid_flags
    else if text_eq s.pair s.slug
    then some invalid_flags
    else none

module _ (p : Platform) where
  unfoldable pub parse_profile : Text → Result Failure Text
  parse_profile input =
      let profile = normal p input in
      if contains profile profiles then ok profile else err unknown_profile

  unfoldable pub validate_identity : Session → Option Failure
  unfolding parse_profile
  validate_identity s =
      if not (slug_ok s.slug)
      then some invalid_slug
      else if contains s.slug reserved_slugs
      then some invalid_slug
      else failure_of (parse_profile s.profile)

  -- A target is written as it parses, and is a concrete language.
  unfoldable pub target_ok : Text → Bool
  target_ok target = elim (parse p.unicode target) [
    | none ↦ false
    | some parsed ↦ not (is_empty parsed) && text_eq parsed target
  ]

  unfoldable pub targets_ok : List Text → List Text → Option Failure
  targets_ok seen [] = none
  targets_ok seen (target ∷ targets) =
      let rest = targets_ok (target ∷ seen) targets in
      if not (target_ok target)
      then some invalid_language
      else if contains target seen
      then some invalid_language
      else rest

  unfoldable pub validate_languages : Session → Option Failure
  unfolding targets_ok
  validate_languages s = if is_empty s.langs then some no_languages else targets_ok [] s.langs

  unfoldable pub validate_modes : Session → Option Failure
  validate_modes s = first_of (if is_empty s.subs then none else failure_of (parse_subs p s.subs)) (
      first_of (failure_of (parse_dub p s.dub))
        (if is_empty s.bed then none else failure_of (parse_bed p s.bed)))

  unfoldable pub validate_media : Session → Option Failure
  validate_media s = first_of (validate_modes s) (
      first_of (validate_pair s) (
        if s.dub_langs.chosen && text_eq s.dub off
        then some invalid_flags
        else validate_dub s.langs s.dub_langs))

  unfoldable pub validate : Session → Option Failure
  validate s = first_of (validate_identity s) (
      first_of (validate_limits s) (
        first_of (validate_source p s.source.url)
          (first_of (validate_languages s) (validate_media s))))
