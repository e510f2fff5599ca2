-- ===== src/Wav/Tests.antt =====
-- internal/speechengine/wav.go and internal/media/ingest/file/wav.go on small files.
use prukka.Base.{ℕ, ◌≡◌, refl, List, [], ◌∷◌, ◌++◌, arith}
use prukka.Base.Result.{ok, err}
use prukka.Base.Int.{pos, negsuc}
use prukka.Pipeline.Units.{Sample}
use prukka.Wav.{decode_pcm16_wav, encode_wav, size_mismatch}
use prukka.Wav.RoundTrip.{decode_pcm16_wav-encode_wav}
use prukka.Wav.Inspect.{WavSpec, inspect_wav, truncated_payload}

abbrev three : List Sample
three = pos 300 ∷ negsuc 0 ∷ negsuc 32767 ∷ []

cuts_short : decode_pcm16_wav (encode_wav three 16000 ++ (0 ∷ [])) ≡ err size_mismatch
unfolding decode_pcm16_wav encode_wav
cuts_short = refl

decode_pcm16_wav-encode_wav_example : decode_pcm16_wav (encode_wav three 22050) ≡ ok (three, 22050)
decode_pcm16_wav-encode_wav_example =
    decode_pcm16_wav-encode_wav (pos 300) (negsuc 0 ∷ negsuc 32767 ∷ []) 22050
      (omega arith, (omega arith, (omega arith, tt))) (omega arith) (omega arith) (omega arith)

-- The source as it lies in a file that goes on behind it.
abbrev file : List ℕ
file = encode_wav three 16000 ++ (9 ∷ 9 ∷ [])

abbrev spec : WavSpec
spec = record { data_offset = 44; data_bytes = 6 }

refuses_shorter : inspect_wav file 49 ≡ err truncated_payload
unfolding inspect_wav encode_wav
refuses_shorter = refl
