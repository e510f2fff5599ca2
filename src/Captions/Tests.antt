-- ===== src/Captions/Tests.antt =====
-- internal/media/egress/vtt at concrete values.
use prukka.Base.{ℕ, ◌*◌, ◌/◌, ◌≡◌, refl, [], ◌∷◌, Text, codes, arith, some}
use prukka.Base.Unicode.{ascii}
use prukka.Base.Int.{pos}
use prukka.Base.Decimal.{digits, digits_from}
use prukka.Base.Flatten.{bare}
use prukka.Captions.{
  TranslatedSegment, split, wrap, layout, append, escape_cue, timestamp, document, millisecond,
}
use prukka.Captions.Registry.{
  PairId, Registry, new_registry, create, document_of, append_at, create-isolates,
}
use prukka.Captions.Layouts.{
  IsLaidOut, layout-IsLaidOut, append_all, last_cues, all_laid_out, writer-last_cues,
}
use prukka.Captions.Rendering.{
  read_cue, read_cue-escape_cue, read_timestamp, read_timestamp-timestamp,
}

-- An exact share, where the float division rounds.
abbrev share : ℕ → ℕ → ℕ → ℕ
share dur chars total = dur * chars / total

split_runs : split (codes "abcdefg") 3 ≡ codes "abc" ∷ codes "def" ∷ codes "g" ∷ []
unfolding split
split_runs = refl

wrap_runs :
    wrap ascii.is_space (codes "a bc  defghij k") 4
    ≡ codes "a bc" ∷ codes "defg" ∷ codes "hij" ∷ codes "k" ∷ []
unfolding wrap
wrap_runs = refl

abbrev sentence : Text
sentence =
    codes
      "The quick brown fox jumps over the lazy dog, and then it sleeps until the morning light comes back again."

timestamp_runs : timestamp (pos 3_723_004_000_000) ≡ codes "01:02:03.004"
unfolding timestamp digits digits_from
timestamp_runs = refl

escape_runs : escape_cue (codes "a<b & c") ≡ codes "a&lt;b &amp; c"
unfolding escape_cue
escape_runs = refl

abbrev short : TranslatedSegment
short = record { text = codes " hi <you> "; schedule_at = 1_000_000_000; duration = pos 0 }

document_runs :
    document (append share ascii.is_space [] short)
    ≡ codes "WEBVTT\n\n00:00:01.000 --> 00:00:02.000\nhi &lt;you&gt;\n"
unfolding document append digits digits_from
document_runs = refl

layout-IsLaidOut_example :
    IsLaidOut ascii.is_space sentence 5_000 9_000 (layout share ascii.is_space sentence 5_000 9_000)
layout-IsLaidOut_example =
    layout-IsLaidOut share ascii.is_space sentence 5_000 9_000 refl (unfold bare in refl)

writer-last_cues_example :
    append_all share ascii.is_space [] (short ∷ short ∷ [])
    ≡ last_cues (all_laid_out share ascii.is_space (short ∷ short ∷ []))
writer-last_cues_example = writer-last_cues share ascii.is_space (short ∷ short ∷ [])

read_cue-escape_cue_example : read_cue 0 (escape_cue (codes "a<b & c")) ≡ codes "a<b & c"
read_cue-escape_cue_example = read_cue-escape_cue (codes "a<b & c")

read_timestamp-timestamp_example : read_timestamp (timestamp (pos 3_723_004_000_000)) ≡ 3_723_004
read_timestamp-timestamp_example =
    unfold millisecond in read_timestamp-timestamp (pos 3_723_004_000_000)

abbrev english : PairId
english = record { slug = codes "talk"; lang = codes "en" }

-- The writer that a lane held before the restart has handle 0.
abbrev restarted : Registry
restarted = (create new_registry english).0

create-isolates_example :
    (document_of (append_at share ascii.is_space (create restarted english).0 0 short) english
      ≡ some (document []))
    × (document_of
          (append_at share ascii.is_space
            (append_at share ascii.is_space (create restarted english).0 0 short)
            (create restarted english).1
            short)
          english
        ≡ some (document (append share ascii.is_space [] short)))
create-isolates_example =
    create-isolates share ascii.is_space restarted english 0 short short
      (λ e. unfold create in omega arith)
