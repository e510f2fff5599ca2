-- ===== src/Session/Model.antt =====
-- internal/core/session/session.go, flags.go and status.go: what a session holds. A type that is a string
-- in the source is a text. What comes from Go's standard library is the parameter `Platform`.
use prukka.Base.{ℕ, Bool, true, false, Option, List, [], Text, codes}
use prukka.Base.Int.{ℤ}
use prukka.Base.Unicode.{Unicode}

-- url.URL, as far as it is read.
pub record Url : Type 0 where
  pub scheme : Text
  pub hostname : Text
  pub escaped_path : Text

-- `parse_query` is url.ParseQuery and `parse_url` url.Parse, with `none` for an error; `bed_figure` is
-- whether strconv.ParseFloat reads a number, neither NaN nor infinite, from -60 to 0.
pub record Platform : Type 0 where
  pub unicode : Unicode
  pub parse_query : Text → Option (List (Text × List Text))
  pub parse_url : Text → Option Url
  pub bed_figure : Text → Bool

-- The sentinel that an error wraps; `rejected` is the error of a caller's own check.
pub data Failure : Type 0 where
  not_found : Failure
  exists : Failure
  capacity : Failure
  invalid_slug : Failure
  invalid_source : Failure
  unknown_profile : Failure
  no_languages : Failure
  invalid_language : Failure
  invalid_delay : Failure
  invalid_flags : Failure
  rejected : ℕ → Failure

-- `unset` is any other string, of which the zero value is the one that occurs.
pub data RuntimeState : Type 0 where
  unset : RuntimeState
  starting : RuntimeState
  running : RuntimeState
  finished : RuntimeState
  failed : RuntimeState

pub record RuntimeStatus : Type 0 where
  pub state : RuntimeState
  pub error : Text
  pub gen : ℕ

pub record DubSelection : Type 0 where
  pub langs : List Text
  pub chosen : Bool

pub record SourceSpec : Type 0 where
  pub url : Text
  pub video_dir : Text
  pub delay : ℤ

pub record Session : Type 0 where
  pub slug : Text
  pub profile : Text
  pub pair : Text
  pub source_lang : Text
  pub subs : Text
  pub dub : Text
  pub bed : Text
  pub source : SourceSpec
  pub runtime : RuntimeStatus
  pub langs : List Text
  pub dub_langs : DubSelection
  pub delay : ℤ
  pub revision : ℕ

-- core.MaxSessionDelay, 60 seconds.
abbrev pub max_session_delay : ℕ
max_session_delay = 60000000000

-- AllDubLangs.
abbrev pub all_dub_langs : DubSelection
all_dub_langs = record { langs = []; chosen = false }

-- DubOnly.
abbrev pub dub_only : List Text → DubSelection
dub_only langs = record { langs = langs; chosen = true }

abbrev pub off : Text
off = codes "off"
