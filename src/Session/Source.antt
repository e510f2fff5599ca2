-- ===== src/Session/Source.antt =====
-- internal/core/session/session.go: the check of a source URL, by its scheme.
use prukka.Base.{
  ℕ, Bool, true, false, not, ◌&&◌, ◌||◌, Option, none, some, List, [], ◌∷◌, ◌==◌, if◌then◌else◌,
  Text, codes, is_empty, text_eq, any_rune, cut_at, cut_text, trim_func,
}
use prukka.Base.Keyed.{find}
use prukka.Session.Model.{Platform, Failure, invalid_source}

abbrev pub slash : ℕ
slash = b'/'

unfoldable pub validate_device_source : Text → Option Failure
validate_device_source rest =
    let (kind, id, cut) = cut_at slash rest in
    let (video, audio, paired) = cut_at b'|' id in
    if not cut || is_empty id
    then some invalid_source
    else if text_eq kind (codes "audio")
    then none
    else if text_eq kind (codes "av")
    then (if not paired || is_empty video || is_empty audio then some invalid_source else none)
    else some invalid_source

abbrev pub all_loop : List (Text × List Text) → Bool
all_loop [] = true
all_loop ((key, values) ∷ rest) = text_eq key (codes "loop") && all_loop rest

-- One value, which is exactly true or false.
abbrev pub loop_ok : List Text → Bool
loop_ok (v ∷ []) = text_eq v (codes "true") || text_eq v (codes "false")
loop_ok [] = false
loop_ok (v ∷ w ∷ rest) = false

unfoldable pub validate_query : List (Text × List Text) → Option Failure
validate_query values =
    if not (all_loop values) then some invalid_source else (elim (find (codes "loop") values) [
      | none ↦ none
      | some loop ↦ if loop_ok loop then none else some invalid_source
    ])

module _ (p : Platform) where
  unfoldable pub validate_file_source : Text → Option Failure
  unfolding validate_query
  validate_file_source rest =
      let (path, query, found) = cut_at b'?' rest in
      if is_empty path then some invalid_source else (elim (p.parse_query query) [
        | none ↦ some invalid_source
        | some values ↦ validate_query values
      ])

  unfoldable pub validate_network_source : Text → Text → Option Failure
  validate_network_source raw scheme = elim (p.parse_url raw) [
    | none ↦ some invalid_source
    | some parsed ↦
        if not (text_eq parsed.scheme scheme) || is_empty parsed.hostname
        then some invalid_source
        else if text_eq scheme (codes "rtmp")
            && is_empty (trim_func (λ c. c == slash) parsed.escaped_path)
        then some invalid_source
        else none
  ]

  unfoldable pub validate_source : Text → Option Failure
  unfolding validate_device_source validate_file_source validate_network_source
  validate_source raw =
      let (scheme, rest, cut) = cut_text (codes "://") raw in
      if is_empty raw
      then some invalid_source
      else if any_rune p.unicode.is_control raw
      then some invalid_source
      else if not cut || not (text_eq scheme (p.unicode.to_lower scheme))
      then some invalid_source
      else if text_eq scheme (codes "file")
      then validate_file_source rest
      else if text_eq scheme (codes "device")
      then validate_device_source rest
      else if text_eq scheme (codes "rtmp") || text_eq scheme (codes "srt")
      then validate_network_source raw scheme
      else some invalid_source
