-- ===== src/Captions.antt =====
-- internal/media/egress/vtt: layout.go, how one segment's text becomes cues, and vtt.go, one pair's rolling
-- WebVTT document. The float share of a cue is the parameter `share`: the duration, the cue's characters
-- and the text's characters.
pub mod Wrapping
pub mod Layouts
pub mod Rendering
pub mod Registry
pub mod Tests
use prukka.Base.{
  ℕ, zero, suc, ◌+◌, ◌-◌, ◌*◌, ◌/◌, ◌%◌, Bool, List, [], ◌∷◌, ◌++◌, if◌then◌else◌, leb, ltb, ◌==◌,
  length, take, drop, Text, codes, is_empty, space, fields_from, trim_func, join_at,
}
use prukka.Base.Int.{ℤ, pos, negsuc, pos_part}
use prukka.Base.Decimal.{padded}

abbrev pub max_line_chars : ℕ
max_line_chars = 42

abbrev pub max_lines : ℕ
max_lines = 2

abbrev pub max_cues : ℕ
max_cues = 200

unfoldable pub nominal_cue_duration : ℕ
nominal_cue_duration = 1_000_000_000

pub record Cue : Type 0 where
  pub lines : List Text
  pub start : ℕ
  pub end : ℕ

-- core.TranslatedSegment, less the slug, which no operation here reads.
pub record TranslatedSegment : Type 0 where
  pub text : Text
  pub schedule_at : ℕ
  pub duration : ℤ

-- The loop of `split` while more than `width` runes are left, on rounds counted by the first argument.
unfoldable pub split_rounds : ℕ → ℕ → Text → List Text
split_rounds zero width runes = runes ∷ []
split_rounds (suc n) width runes =
    let rest = split_rounds n width (drop width runes) in
    if ltb width (length runes) then take width runes ∷ rest else runes ∷ []

unfoldable pub split : Text → ℕ → List Text
unfolding split_rounds
split word width =
    if leb (length word) width then word ∷ [] else split_rounds (length word) width word

-- The lines closed so far, and the current one.
pub record Filling : Type 0 where
  pub closed : List Text
  pub current : Text

unfoldable pub place : ℕ → Filling → Text → Filling
place width f piece =
    if is_empty f.current
    then record f { current = piece }
    else if leb (length f.current + 1 + length piece) width
    then record f { current = f.current ++ (space ∷ piece) }
    else record { closed = f.closed ++ (f.current ∷ []); current = piece }

unfoldable pub place_all : ℕ → Filling → List Text → Filling
unfolding place
place_all width f [] = f
place_all width f (piece ∷ pieces) = place_all width (place width f piece) pieces

unfoldable pub fill_words : ℕ → Filling → List Text → Filling
unfolding place_all split
fill_words width f [] = f
fill_words width f (word ∷ words) = fill_words width (place_all width f (split word width)) words

unfoldable pub flush : Filling → List Text
flush f = if is_empty f.current then f.closed else f.closed ++ (f.current ∷ [])

unfoldable pub wrap : (ℕ → Bool) → Text → ℕ → List Text
unfolding fill_words flush
wrap is_space text width =
    flush (fill_words width (record { closed = []; current = [] }) (fields_from is_space [] text))

-- The lines in groups of `max_lines`, the last one possibly shorter.
unfoldable pub groups : List Text → List (List Text)
groups [] = []
groups (a ∷ []) = (a ∷ []) ∷ []
groups (a ∷ b ∷ rest) = (a ∷ b ∷ []) ∷ groups rest

unfoldable pub chars : List Text → ℕ
chars [] = 0
chars (line ∷ rest) = length line + chars rest

module _ (share : ℕ → ℕ → ℕ → ℕ) where
  -- The loop over the groups; the last cue ends where the segment ends.
  unfoldable pub lay_out : ℕ → ℕ → ℕ → ℕ → List (List Text) → List Cue
  unfolding chars
  lay_out total start dur cue_start [] = []
  lay_out total start dur cue_start (g ∷ []) =
      record { lines = g; start = cue_start; end = start + dur } ∷ []
  lay_out total start dur cue_start (g ∷ h ∷ more) =
      let cue_end = cue_start + share dur (chars g) total in
      record { lines = g; start = cue_start; end = cue_end }
      ∷ lay_out total start dur cue_end (h ∷ more)

  unfoldable pub layout : (ℕ → Bool) → Text → ℕ → ℕ → List Cue
  unfolding lay_out wrap groups chars
  layout is_space text start dur =
      let lines = wrap is_space text max_line_chars in
      lay_out (chars lines) start dur start (groups lines)

unfoldable pub push : List Cue → Cue → List Cue
push cues c = if length cues == max_cues then drop 1 cues ++ (c ∷ []) else cues ++ (c ∷ [])

unfoldable pub push_all : List Cue → List Cue → List Cue
unfolding push
push_all cues [] = cues
push_all cues (c ∷ more) = push_all (push cues c) more

-- `if dur <= 0`.
unfoldable pub cue_duration : ℤ → ℕ
unfolding nominal_cue_duration
cue_duration (pos zero) = nominal_cue_duration
cue_duration (pos (suc n)) = suc n
cue_duration (negsuc n) = nominal_cue_duration

-- Writer.Append, on the writer's cues.
unfoldable pub append : (ℕ → ℕ → ℕ → ℕ) → (ℕ → Bool) → List Cue → TranslatedSegment → List Cue
unfolding push_all layout cue_duration
append share is_space cues seg =
    let text = trim_func is_space seg.text in
    if is_empty text
    then cues
    else push_all cues (layout share is_space text seg.schedule_at (cue_duration seg.duration))

-- The entity that stands for a metacharacter of a cue.
unfoldable pub entity : ℕ → Text
entity c =
    if c == b'&'
    then codes "&amp;"
    else if c == b'<'
    then codes "&lt;"
    else if c == b'>'
    then codes "&gt;"
    else c ∷ []

unfoldable pub escape_cue : Text → Text
unfolding entity
escape_cue [] = []
escape_cue (c ∷ cs) = entity c ++ escape_cue cs

unfoldable pub cue_text : Cue → Text
unfolding escape_cue
cue_text c = escape_cue (join_at 10 c.lines)

unfoldable pub second : ℕ
second = 1_000_000_000

unfoldable pub minute : ℕ
unfolding second
minute = 60 * second

unfoldable pub hour : ℕ
unfolding minute
hour = 60 * minute

unfoldable pub millisecond : ℕ
millisecond = 1_000_000

unfoldable pub timestamp : ℤ → Text
unfolding hour minute second millisecond padded
timestamp t =
    let d = pos_part t in
    let seconds = padded 2 (d % minute / second) ++ (b'.' ∷ padded 3 (d % second / millisecond)) in
    padded 2 (d / hour) ++ (b':' ∷ (padded 2 (d % hour / minute) ++ (b':' ∷ seconds)))

unfoldable pub render_cue : Cue → Text
unfolding timestamp cue_text
render_cue c =
    (10 ∷ timestamp (pos c.start))
    ++ codes " --> "
    ++ timestamp (pos c.end)
    ++ (10 ∷ cue_text c)
    ++ (10 ∷ [])

unfoldable pub render_cues : List Cue → Text
unfolding render_cue
render_cues [] = []
render_cues (c ∷ cs) = render_cue c ++ render_cues cs

unfoldable pub document : List Cue → Text
unfolding render_cues
document cues = codes "WEBVTT" ++ (10 ∷ render_cues cues)
