-- ===== src/Hls/Tests.antt =====
-- internal/media/egress/hls at concrete values.
use prukka.Base.{
  ℕ, ◌≡◌, refl, inr, true, false, Bool, ◌==◌, Option, none, some, [], ◌∷◌, Text, codes, split_at,
}
use prukka.Base.Int.{ℤ, pos}
use prukka.Base.Decimal.{digits, digits_from, padded}
use prukka.Captions.{Cue}
use prukka.Hls.{
  Disk, Segmenter, new_segmenter, append_cues, first_part, last_part, ensure_part, evict,
}
use prukka.Hls.Mirror.{Mirrors}
use prukka.Hls.Refresh.{IsReliable, Refreshes, append_cues-Refreshes}
use prukka.Hls.Overlay.{LiveCue, new_live_cue, schedule, after_events, fired}
use prukka.Hls.Resolve.{
  Tree, open_path, segment_name, IsServed, playlist_name, ts_suffix, video_dir, audio_dir, subs_dir,
  open_path-IsServed,
}

-- From the last second of part 0 into part 1.
abbrev cue : Cue
cue = record { lines = codes "hi" ∷ []; start = 5_000_000_000; end = 7_000_000_000 }

abbrev later : Cue
later = record { lines = codes "there" ∷ []; start = 7_000_000_000; end = 9_000_000_000 }

abbrev shows : Text → Bool
shows text = true

-- Nothing fails.
abbrev disk : Disk
disk = record {
  can_show = shows;
  can_write = λ idx text. true;
  can_write_playlist = λ text. true;
  can_remove = λ idx. true;
}

-- The clock stands at the overlay's anchor.
abbrev clock : ℕ → ℕ
clock n = 0

cue_parts : (first_part cue ≡ 0) × (last_part cue ≡ 1)
unfolding first_part last_part
cue_parts = (refl, refl)

part_in_two : (append_cues disk clock new_segmenter (cue ∷ [])).cues 1 ≡ cue ∷ []
unfolding append_cues new_segmenter first_part last_part ensure_part
part_in_two = refl

new_segmenter-Mirrors : (j : ℕ) → Mirrors new_segmenter j
unfolding new_segmenter
new_segmenter-Mirrors j = inr (refl, refl, refl)

disk-IsReliable : IsReliable disk
disk-IsReliable = record {
  writes = λ idx text. refl;
  writes_playlist = λ text. refl;
  removes = λ idx. refl;
}

append_cues-Refreshes_example :
    Refreshes new_segmenter
      (cue ∷ later ∷ [])
      (append_cues disk clock new_segmenter (cue ∷ later ∷ []))
append_cues-Refreshes_example =
    append_cues-Refreshes disk clock new_segmenter (cue ∷ later ∷ []) disk-IsReliable
      new_segmenter-Mirrors

-- A file that cannot be removed is left where its part has gone.
abbrev crowded : Segmenter
crowded = record new_segmenter {
  parts = λ idx. idx == 0;
  files = λ idx. some (codes "old");
  next = 6;
}

left_over :
    ((evict (λ idx. false) crowded).parts 0 ≡ false)
    × ((evict (λ idx. false) crowded).files 0 ≡ some (codes "old"))
unfolding evict new_segmenter
left_over = (refl, refl)

-- Two cues of one segment, scheduled at 0: the first one's timer finds the second one's generation.
lost :
    (after_events shows
      (fired 0 ∷ [])
      (schedule shows (schedule shows new_live_cue 0 cue) 0 later)).file
    ≡ []
unfolding after_events schedule
lost = refl

-- So it goes for the overlay of a segmenter.
lost_in_append :
    (after_events shows
      (fired 0 ∷ [])
      (append_cues disk clock new_segmenter (cue ∷ later ∷ [])).cue).file
    ≡ []
unfolding append_cues new_segmenter after_events schedule first_part last_part ensure_part
lost_in_append = refl

alone : (after_events shows (fired 0 ∷ []) (schedule shows new_live_cue 0 cue)).file ≡ codes "hi"
unfolding after_events schedule
alone = refl

-- The first cue is shown at its sixth second; the other one is due at its seventh, before the first
-- one's clear.
abbrev shown : LiveCue
shown = schedule shows new_live_cue 6_000_000_000 cue

shown_lem : shown ≡ record {
  timers = record { id = 3; at = 7_000_000_000; gen = 1; text = [] } ∷ [];
  gen = 1;
  closed = false;
  file = codes "hi";
}
unfolding schedule
shown_lem = refl

abbrev tree : Tree
tree = record {
  dir = codes "talk";
  langs = codes "en" ∷ codes "it" ∷ [];
  subtitle_langs = codes "en" ∷ [];
}

-- It reads every name as that of segment 7.
abbrev scan : Text → Text → Option ℤ
scan suffix file = some (pos 7)

open_runs :
    open_path scan tree (codes "audio/it/seg00007.ts")
    ≡ some (codes "talk" ∷ codes "audio" ∷ codes "it" ∷ codes "seg00007.ts" ∷ [])
unfolding open_path segment_name padded digits digits_from audio_dir video_dir playlist_name
    ts_suffix
open_runs = refl

not_canonical : open_path scan tree (codes "audio/it/seg7.ts") ≡ none
unfolding open_path segment_name padded digits digits_from audio_dir video_dir playlist_name
    ts_suffix
not_canonical = refl

not_carried : open_path scan tree (codes "subs/it/index.m3u8") ≡ none
unfolding open_path audio_dir video_dir subs_dir
not_carried = refl

open_path-IsServed_example :
    (codes "talk" ∷ codes "audio" ∷ codes "it" ∷ codes "seg00007.ts" ∷ []
      ≡ codes "talk" ∷ split_at b'/' (codes "audio/it/seg00007.ts"))
    × IsServed tree (codes "talk" ∷ codes "audio" ∷ codes "it" ∷ codes "seg00007.ts" ∷ [])
open_path-IsServed_example =
    open_path-IsServed scan tree (codes "audio/it/seg00007.ts")
      (codes "talk" ∷ codes "audio" ∷ codes "it" ∷ codes "seg00007.ts" ∷ []) open_runs
