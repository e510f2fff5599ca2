-- ===== src/StrictJson.antt =====
-- internal/strictjson/strictjson.go: the walk over the tokens of a document that refuses duplicate keys.
-- encoding/json is a parameter: the tokens that its decoder reads, whether it stops by an error, and what
-- it decodes.
pub mod Trees
mod Tests
use prukka.Base.{
  ℕ, ◌≡◌, refl, Bool, true, false, Option, none, some, List, [], ◌∷◌, if◌then◌else◌, Text, contains,
}
use prukka.Base.Result.{Result, ok, err}

-- json.Delim, string and every other token.
pub data Token : Type 0 where
  open_object open_array close scalar : Token
  string : Text → Token

pub data JsonError : Type 0 where
  key_no_string duplicate_key malformed undecodable trailing_data panicked : JsonError

-- Only object frames carry a key set.
pub record Frame : Type 0 where
  pub keys : Option (List Text)
  pub expect_key : Bool

abbrev pub object_frame : Frame
object_frame = record { keys = some []; expect_key = true }

abbrev pub array_frame : Frame
array_frame = record { keys = none; expect_key = false }

abbrev pub is_object : Frame → Bool
is_object f = elim f.keys [ none ↦ false | some seen ↦ true ]

-- The restored alternation of the parent; the top of the stack is its head.
unfoldable pub restored : List Frame → List Frame
restored [] = []
restored (f ∷ stack) = record f { expect_key = is_object f } ∷ stack

-- The closing branch of `push`; a close without an open container is an index out of range.
unfoldable pub popped : List Frame → Option (List Frame)
unfolding restored
popped [] = none
popped (f ∷ stack) = some (restored stack)

abbrev pub noted_key : Frame → List Text → Text → Result JsonError Frame
noted_key f seen key =
    if contains key seen
    then err duplicate_key
    else ok (record { keys = some (key ∷ seen); expect_key = false })

unfoldable pub note_in : Frame → List Text → Token → Result JsonError Frame
note_in f seen (string key) =
    if f.expect_key then noted_key f seen key else ok (record f { expect_key = true })
note_in f seen scalar =
    if f.expect_key then err key_no_string else ok (record f { expect_key = true })
note_in f seen open_object =
    if f.expect_key then err key_no_string else ok (record f { expect_key = true })
note_in f seen open_array =
    if f.expect_key then err key_no_string else ok (record f { expect_key = true })
note_in f seen close =
    if f.expect_key then err key_no_string else ok (record f { expect_key = true })

unfoldable pub note_keys : Frame → Option (List Text) → Token → Result JsonError Frame
unfolding note_in
note_keys f none token = ok f
note_keys f (some seen) token = note_in f seen token

unfoldable pub note : Frame → Token → Result JsonError Frame
unfolding note_keys
note f token = note_keys f f.keys token

-- The stack after a token that is no delimiter.
unfoldable pub noted : List Frame → Token → Result JsonError (List Frame)
unfolding note
noted [] token = ok []
noted (f ∷ stack) token = elim (note f token) [ err e ↦ err e | ok f' ↦ ok (f' ∷ stack) ]

unfoldable pub step : List Frame → Token → Result JsonError (List Frame)
unfolding popped noted
step stack open_object = ok (object_frame ∷ stack)
step stack open_array = ok (array_frame ∷ stack)
step stack close = elim (popped stack) [ none ↦ err panicked | some stack' ↦ ok stack' ]
step stack scalar = noted stack scalar
step stack (string s) = noted stack (string s)

-- The loop of `rejectDuplicateKeys`; `failed` is whether the decoder ends by an error and not by io.EOF.
unfoldable pub walk : List Frame → List Token → Bool → Option JsonError
unfolding step
walk stack [] failed = if failed then some malformed else none
walk stack (token ∷ tokens) failed = elim (step stack token) [
  | err e ↦ some e
  | ok stack' ↦ walk stack' tokens failed
]

unfoldable pub reject_duplicate_keys : List Token → Bool → Option JsonError
unfolding walk
reject_duplicate_keys tokens failed = walk [] tokens failed

-- `decoded` is what the second decoder makes of the document, `more` what it reports of data behind it.
unfoldable pub decode : {A : Type 0} → List Token → Bool → Option A → Bool → Result JsonError A
unfolding reject_duplicate_keys
decode tokens failed decoded more = elim (reject_duplicate_keys tokens failed) [
  | some e ↦ err e
  | none ↦ elim decoded [
    | none ↦ err undecodable
    | some a ↦ if more then err trailing_data else ok a
  ]
]
