-- ===== src/Pipeline/Pcm/Tests.antt =====
-- internal/core/pipeline/pcm.go at concrete values.
use prukka.Base.{◌≡◌, refl, List, [], ◌∷◌, ◌++◌, none, some, arith, drop}
use mathlib.Core.Option
use prukka.Base.Int.{pos, negsuc}
use prukka.Pipeline.Units.{Sample, silence}
use prukka.Pipeline.Pcm.{samples_in_quantum, peak_s16, decode_s16_le, encode_s16_le, append_s16_le}
use prukka.Pipeline.Pcm.Codec.{bytes_of, encode_s16_le-bytes_of, decode_s16_le-encode_s16_le}

abbrev five : List Sample
five = pos 1 ∷ negsuc 0 ∷ pos 32767 ∷ negsuc 32767 ∷ pos 256 ∷ []

abbrev room : List Sample
room = silence ∷ silence ∷ silence ∷ silence ∷ silence ∷ pos 9 ∷ []

quantum_runs : samples_in_quantum (pos 20_000_000) ≡ some 320
unfolding samples_in_quantum
quantum_runs = refl

quantum_misaligned : samples_in_quantum (pos 20_000_001) ≡ none
unfolding samples_in_quantum
quantum_misaligned = refl

peak_runs : peak_s16 five ≡ 32768
unfolding peak_s16
peak_runs = refl

encode_runs : encode_s16_le five ≡ some (1 ∷ 0 ∷ 255 ∷ 255 ∷ 255 ∷ 127 ∷ 0 ∷ 128 ∷ 0 ∷ 1 ∷ [])
unfolding encode_s16_le
encode_runs = refl

decode_runs : decode_s16_le room (1 ∷ 0 ∷ 255 ∷ 255 ∷ 7 ∷ []) ≡ (pos 1 ∷ negsuc 0 ∷ drop 2 room, 2)
unfolding decode_s16_le
decode_runs = refl

encode_s16_le-bytes_of_example :
    (encode_s16_le five ≡ some (bytes_of five))
    × (append_s16_le (7 ∷ []) (1 ∷ 2 ∷ []) five ≡ some (7 ∷ bytes_of five))
encode_s16_le-bytes_of_example = encode_s16_le-bytes_of five (7 ∷ []) (1 ∷ 2 ∷ [])

decode_s16_le-encode_s16_le_example :
    Option.map (decode_s16_le room) (encode_s16_le five) ≡ some (five ++ (pos 9 ∷ []), 5)
decode_s16_le-encode_s16_le_example =
    decode_s16_le-encode_s16_le five room
      (omega arith, (omega arith, (omega arith, (omega arith, (omega arith, tt))))) (omega arith)
