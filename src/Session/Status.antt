-- ===== src/Session/Status.antt =====
-- internal/core/session/status.go: the observed state of a lane and the text of its failure. A text is its
-- code points; `bytes` is its length in UTF-8, and a cut that lands inside a code point drops it whole.
-- The spans that an error declares are collected by a walk over Go's error tree, which is not modelled:
-- they are part of `LaneError`, in the order in which they are replaced.
pub mod Bounds
use prukka.Base.{
  ℕ, zero, suc, ◌+◌, ◌-◌, ◌≤◌, ◌<◌, ◌≡◌, refl, Bool, true, false, ◌&&◌, ◌||◌, Option, none, some,
  List, [], ◌∷◌, ◌++◌, map, arith, ltb, leb, if◌then◌else◌, Text, codes, after_prefix, fields_from,
  join, trim_func,
}
use prukka.Base.Utf8.{rune_bytes, bytes}
use prukka.Base.Unicode.{Unicode}
use prukka.Session.Model.{RuntimeState, unset, starting, running, finished, failed}

abbrev pub max_runtime_error_bytes : ℕ
max_runtime_error_bytes = 512

-- U+2026, three bytes.
abbrev pub runtime_error_ellipsis : Text
runtime_error_ellipsis = 8230 ∷ []

-- `value` is the text of the span as it is printed, `quoted` that of its Go-quoted form.
pub record UntrustedSpan : Type 0 where
  pub value : Text
  pub quoted : Text
  pub label : Text

pub record LaneError : Type 0 where
  pub message : Text
  pub spans : List UntrustedSpan

-- The code points that fit into a number of bytes.
unfoldable pub fit : ℕ → Text → Text
fit n [] = []
fit n (r ∷ rs) =
    let rest = fit (n - rune_bytes r) rs in if leb (rune_bytes r) n then r ∷ rest else []

-- strings.ReplaceAll of a text that is not empty; `skip` code points belong to the last match.
abbrev pub replace_from : Text → Text → ℕ → Text → Text
replace_from old new skip [] = []
replace_from old new (suc skip) (r ∷ rs) = replace_from old new skip rs
replace_from old new zero (r ∷ rs) = elim (after_prefix old (r ∷ rs)) [
  | none ↦ r ∷ replace_from old new 0 rs
  | some rest ↦ new ++ replace_from old new (length_of old - 1) rs
]
  where
    length_of : Text → ℕ
    length_of [] = 0
    length_of (c ∷ cs) = length_of cs + 1

abbrev pub replace_all : Text → Text → Text → Text
replace_all old new text = replace_from old new 0 text

abbrev pub quote_mark : Text
quote_mark = b'"' ∷ []

-- `redactUntrusted`.
abbrev pub redact_untrusted : Text → List UntrustedSpan → Text
redact_untrusted detail [] = detail
redact_untrusted detail (s ∷ spans) =
    redact_untrusted
      (replace_all s.value s.label
        (replace_all s.quoted (quote_mark ++ (s.label ++ quote_mark)) detail))
      spans

unfoldable pub valid_runtime_transition : RuntimeState → RuntimeState → Bool
valid_runtime_transition starting running = true
valid_runtime_transition starting finished = true
valid_runtime_transition starting failed = true
valid_runtime_transition starting starting = false
valid_runtime_transition starting unset = false
valid_runtime_transition running finished = true
valid_runtime_transition running failed = true
valid_runtime_transition running running = false
valid_runtime_transition running starting = false
valid_runtime_transition running unset = false
valid_runtime_transition finished to = false
valid_runtime_transition failed to = false
valid_runtime_transition unset starting = true
valid_runtime_transition unset unset = false
valid_runtime_transition unset running = false
valid_runtime_transition unset finished = false
valid_runtime_transition unset failed = false

module _ (u : Unicode) where
  unfoldable pub printable_runtime_rune : ℕ → ℕ
  printable_runtime_rune r = if u.is_print r then r else 32

  -- `limit` is at least the three bytes of the ellipsis.
  unfoldable pub truncate_utf8 : Text → ℕ → Text
  unfolding fit
  truncate_utf8 value limit =
      if leb (bytes value) limit
      then value
      else trim_func u.is_space (fit (limit - 3) value) ++ runtime_error_ellipsis

  unfoldable pub sanitize_runtime_error : Option LaneError → Text
  unfolding truncate_utf8 printable_runtime_rune
  sanitize_runtime_error none = []
  sanitize_runtime_error (some e) =
      truncate_utf8
        (join (
          fields_from u.is_space []
            (redact_untrusted (map printable_runtime_rune e.message) e.spans)))
        max_runtime_error_bytes
