-- ===== src/Hls.antt =====
-- internal/media/egress/hls/segmenter.go: one language's live subtitle rendition. The maps over part
-- numbers are functions, and the directory on disk is a map from part numbers to the texts of the files.
-- `can_write` says which writes of a file succeed and `can_remove` which removals do, that of a file
-- that does not exist included; `can_show` is the overlay's, and `clock` what it reads at each call of
-- Schedule.
pub mod Parts
pub mod Mirror
pub mod Refresh
pub mod Overlay
pub mod Resolve
mod Tests
use prukka.Base.{
  ℕ, zero, suc, ◌+◌, ◌-◌, ◌*◌, ◌/◌, ◌%◌, ◌≤◌, ◌<◌, ◌≡◌, refl, max, Bool, true, false, ◌&&◌, ◌||◌,
  not, Option, none, some, List, [], ◌∷◌, ◌++◌, if◌then◌else◌, ltb, leb, ◌==◌, Text, codes,
  is_empty, trim_func,
}
use prukka.Base.Decimal.{digits, padded}
use prukka.Hls.Overlay.{LiveCue, new_live_cue, schedule}
use prukka.Captions.{Cue, TranslatedSegment, layout, cue_duration, render_cues, second, millisecond}

abbrev pub segment_seconds : ℕ
segment_seconds = 6

unfoldable pub segment_length : ℕ
unfolding second
segment_length = segment_seconds * second

abbrev pub window_segments : ℕ
window_segments = 5

unfoldable pub timestamp_map : Text
timestamp_map = codes "X-TIMESTAMP-MAP=LOCAL:00:00:00.000,MPEGTS:126000\n"

-- `next` is the source's `top` + 1, which starts at 0.
pub record Segmenter : Type 0 where
  pub cues : ℕ → List Cue
  pub parts : ℕ → Bool
  pub next : ℕ
  pub files : ℕ → Option Text
  pub playlist : Text
  pub cue : LiveCue

abbrev pub update {ℓ} : {A : Type ℓ} → (ℕ → A) → ℕ → A → ℕ → A
update f i a j = if i == j then a else f j

unfoldable pub new_segmenter : Segmenter
new_segmenter = record {
  cues = λ idx. [];
  parts = λ idx. false;
  next = 0;
  files = λ idx. none;
  playlist = [];
  cue = new_live_cue;
}

unfoldable pub first_part : Cue → ℕ
unfolding segment_length
first_part cue = cue.start / segment_length

-- The division of a negative number by the length of a part is 0, as that of 0 is.
unfoldable pub last_part : Cue → ℕ
unfolding segment_length millisecond
last_part cue = (cue.end - millisecond) / segment_length

-- The rounds of the loop over the parts of a cue, from `idx` on; the parts touched come with the state.
unfoldable pub add_rounds : ℕ → ℕ → Cue → Segmenter × List ℕ → Segmenter × List ℕ
add_rounds zero idx cue st = st
add_rounds (suc n) idx cue (s, touched) = add_rounds n (idx + 1) cue (
  record s { cues = update s.cues idx (s.cues idx ++ (cue ∷ [])); next = max s.next (idx + 1) },
  idx ∷ touched,
)

-- The loop over the cues that are laid out, each of which goes to the overlay first.
abbrev pub overlaid : (Text → Bool) → ℕ → Cue → Segmenter × List ℕ → Segmenter × List ℕ
overlaid can_show now cue (s, touched) =
    (record s { cue = schedule can_show s.cue now cue }, touched)

unfoldable pub add_cues :
    (Text → Bool) → (ℕ → ℕ) → List Cue → Segmenter × List ℕ → Segmenter × List ℕ
unfolding add_rounds first_part last_part
add_cues can_show clock [] st = st
add_cues can_show clock (cue ∷ cues) st =
    add_cues can_show (λ n. clock (n + 1)) cues
      (add_rounds (last_part cue + 1 - first_part cue) (first_part cue) cue
        (overlaid can_show (clock 0) cue st))

unfoldable pub part_text : List Cue → Text
unfolding render_cues timestamp_map
part_text cues = codes "WEBVTT" ++ (10 ∷ timestamp_map) ++ render_cues cues

unfoldable pub part_name : ℕ → Text
unfolding padded
part_name idx = codes "seg" ++ padded 5 idx ++ codes ".vtt"

-- The first part of the live window.
abbrev pub window_start : Segmenter → ℕ
window_start s = s.next - window_segments

unfoldable pub playlist_head : ℕ → Text
unfolding digits
playlist_head first =
    codes "#EXTM3U\n#EXT-X-VERSION:4\n#EXT-X-TARGETDURATION:"
    ++ digits segment_seconds
    ++ codes "\n#EXT-X-MEDIA-SEQUENCE:"
    ++ digits first
    ++ codes "\n"

unfoldable pub playlist_entry : ℕ → Text
unfolding digits part_name
playlist_entry idx =
    codes "#EXTINF:" ++ digits segment_seconds ++ codes ".0,\n" ++ part_name idx ++ codes "\n"

-- A part whose file cannot be removed is forgotten all the same.
unfoldable pub evict : (ℕ → Bool) → Segmenter → Segmenter
evict can_remove s =
    let first = window_start s in
    record s {
      cues = λ idx. if ltb idx first then [] else s.cues idx;
      files = λ idx. if ltb idx first && (s.parts idx && can_remove idx) then none else s.files idx;
      parts = λ idx. if ltb idx first then false else s.parts idx;
    }

-- A part whose file has been written.
abbrev pub written : Segmenter → ℕ → Segmenter
written s idx = record s {
  files = update s.files idx (some (part_text (s.cues idx)));
  parts = update s.parts idx true;
}

-- Which writes and removals of one Append succeed.
pub record Disk : Type 0 where
  pub can_show : Text → Bool
  pub can_write : ℕ → Text → Bool
  pub can_write_playlist : Text → Bool
  pub can_remove : ℕ → Bool

module _ (can_write : ℕ → Text → Bool) where
  unfoldable pub write_part : Segmenter → ℕ → Segmenter
  write_part s idx = if can_write idx (part_text (s.cues idx)) then written s idx else s

  unfoldable pub write_parts : Segmenter → List ℕ → Segmenter
  unfolding write_part
  write_parts s [] = s
  write_parts s (idx ∷ more) = write_parts (write_part s idx) more

  unfoldable pub ensure_part : Segmenter → ℕ → Segmenter
  unfolding write_part
  ensure_part s idx = if s.parts idx then s else write_part s idx

  -- The loop over the window; `none` is the return where a part cannot be written.
  unfoldable pub list_parts : ℕ → ℕ → Segmenter → Text → Segmenter × Option Text
  list_parts zero idx s text = (s, some text)
  list_parts (suc n) idx s text =
      let s' = ensure_part s idx in
      let listed = list_parts n (idx + 1) s' (text ++ playlist_entry idx) in
      if s'.parts idx then listed else (s', none)

module _ (can_write : ℕ → Text → Bool) (can_write_playlist : Text → Bool) where
  -- The playlist is written unless a part of it could not be.
  unfoldable pub put_playlist : Segmenter → Option Text → Segmenter
  put_playlist s none = s
  put_playlist s (some text) = if can_write_playlist text then record s { playlist = text } else s

  unfoldable pub write_playlist : Segmenter → Segmenter
  unfolding list_parts put_playlist
  write_playlist s =
      let first = window_start s in
      let (s', text) = list_parts can_write (s.next - first) first s (playlist_head first) in
      put_playlist s' text

module _ (disk : Disk) where
  -- Segmenter.Append past its guard, on the cues that are laid out.
  unfoldable pub append_cues : (ℕ → ℕ) → Segmenter → List Cue → Segmenter
  unfolding add_cues write_parts write_playlist evict
  append_cues clock s cues =
      let (s', touched) = add_cues disk.can_show clock cues (s, []) in
      evict disk.can_remove (
        write_playlist disk.can_write disk.can_write_playlist
          (write_parts disk.can_write s' touched))

  unfoldable pub append :
      (ℕ → ℕ → ℕ → ℕ) → (ℕ → Bool) → (ℕ → ℕ) → Segmenter → TranslatedSegment → Segmenter
  unfolding append_cues layout cue_duration
  append share is_space clock s seg =
      let text = trim_func is_space seg.text in
      if is_empty text
      then s
      else append_cues clock s
          (layout share is_space text seg.schedule_at (cue_duration seg.duration))
