-- ===== src/Wav/Inspect/Steps.antt =====
-- internal/media/ingest/file/wav.go: what one round of the loop over the chunks makes of the places found so far.
use prukka.Base.{
  ℕ, ◌+◌, ◌*◌, ◌%◌, ◌≤◌, ◌<◌, ◌≡◌, refl, subst, ◌⊎◌, inr, true, false, ◌||◌, not, List,
  if◌then◌else◌, ltb, leb, ◌==◌, take, drop, codes, text_eq, if-split, arith,
}
use prukka.Base.Result.{Result, ok, err}
use prukka.Wav.{field}
use prukka.Wav.Inspect.Guards.{On, guarded, read_at-On}
use prukka.Wav.Inspect.{
  InspectError, too_many_chunks, truncated_header, truncated_chunk, duplicate_fmt, short_fmt,
  wrong_format, bad_layout, duplicate_data, empty_data, unaligned_data, WavSpec, InspectedChunk,
  WavInspection, read_at, chunk_at, inspect_chunk, check_format, inspect_format, consume_data,
  consume_chunk, consume_read, consume_next, max_riff_chunks,
}

-- The header of the chunk at a place.
abbrev pub header_at : List ℕ → ℕ → List ℕ
header_at raw at = take 8 (drop at raw)

-- The samples lie behind the header of a data chunk that gives their length, inside the RIFF payload and behind
-- its own header; there are some, and their bytes are whole samples.
pub record IsRegion (raw : List ℕ) (end : ℕ) (spec : WavSpec) : Type 0 where
  pub at : ℕ
  pub starts : spec.data_offset ≡ at + 8
  pub behind_header : 12 ≤ at
  pub is_data : text_eq (take 4 (header_at raw at)) (codes "data") ≡ true
  pub sized : field 4 4 (header_at raw at) ≡ spec.data_bytes
  pub inside : spec.data_offset + spec.data_bytes ≤ end
  pub some_samples : 0 < spec.data_bytes
  pub whole_samples : spec.data_bytes % 2 ≡ 0

-- What a chunk that was read says of the file.
abbrev pub IsChunkAt : List ℕ → ℕ → ℕ → InspectedChunk → Type 0
IsChunkAt raw offset end chunk =
    (chunk.id ≡ take 4 (header_at raw offset))
    × (chunk.body_offset ≡ offset + 8)
    × (field 4 4 (header_at raw offset) ≡ chunk.body_bytes)
    × (chunk.body_offset + chunk.body_bytes ≤ chunk.next_offset)
    × (chunk.next_offset ≤ end)

chunk_at-On :
    (raw : List ℕ) (offset end : ℕ)
    → On (IsChunkAt raw offset end) (chunk_at offset end (header_at raw offset))
unfolding chunk_at
chunk_at-On raw offset end =
    guarded (IsChunkAt raw offset end) (ltb end (offset + 8 + size + size % 2)) truncated_chunk
      (ok (record {
        id = take 4 (header_at raw offset);
        body_offset = offset + 8;
        body_bytes = size;
        next_offset = offset + 8 + size + size % 2;
      }))
      (λ fits. (refl, refl, refl, omega arith, ground arith))
  where
    size : ℕ
    size = field 4 4 (header_at raw offset)

inspect_chunk-On :
    (raw : List ℕ) (offset end : ℕ) → On (IsChunkAt raw offset end) (inspect_chunk raw offset end)
unfolding inspect_chunk
inspect_chunk-On raw offset end =
    guarded (IsChunkAt raw offset end) (ltb end (offset + 8)) truncated_header
      (read_at raw 8 offset (chunk_at offset end))
      (λ _.
        read_at-On (IsChunkAt raw offset end) raw 8 offset (chunk_at offset end)
          (chunk_at-On raw offset end))

-- The loop's invariant, n chunks on.
pub record Inv (n : ℕ) (raw : List ℕ) (end : ℕ) (s : WavInspection) : Type 0 where
  pub counted : s.chunks ≡ n
  pub behind_header : 12 ≤ s.offset
  pub same_end : s.end ≡ end
  pub region : (s.data_seen ≡ false) ⊎ IsRegion raw end s.spec

inspect_format-On :
    (n : ℕ) (raw : List ℕ) (end : ℕ) (s : WavInspection) (chunk : InspectedChunk)
    → Inv n raw end s
    → On (Inv n raw end) (inspect_format raw s chunk)
unfolding inspect_format check_format
inspect_format-On n raw end s chunk i =
    guarded (Inv n raw end) (ltb chunk.body_bytes 16) short_fmt
      (read_at raw 16 chunk.body_offset (check_format s))
      (λ _.
        read_at-On (Inv n raw end) raw 16 chunk.body_offset (check_format s)
          (check_format-On (take 16 (drop chunk.body_offset raw))))
  where
    check_format-On : (format : List ℕ) → On (Inv n raw end) (check_format s format)
    check_format-On format =
        unfold check_format in
        guarded (Inv n raw end)
          (not (field 0 2 format == 1)
            || (not (field 14 2 format == 16)
                || (not (field 2 2 format == 1) || not (field 4 4 format == 16000))))
          wrong_format checked
          (λ _.
            guarded (Inv n raw end)
              (not (field 8 4 format == 16000 * 2) || not (field 12 2 format == 2)) bad_layout
              (ok (record s { format_seen = true }))
              (λ _. record {
                counted = i.counted;
                behind_header = i.behind_header;
                same_end = i.same_end;
                region = i.region;
              }))
      where
        checked : Result InspectError WavInspection
        checked =
            if not (field 8 4 format == 16000 * 2) || not (field 12 2 format == 2)
            then err bad_layout
            else ok (record s { format_seen = true })

consume_data-On :
    (n : ℕ) (raw : List ℕ) (end offset : ℕ) (s : WavInspection) (chunk : InspectedChunk)
    → 12 ≤ offset
    → Inv n raw end s
    → IsChunkAt raw offset end chunk
    → text_eq chunk.id (codes "data") ≡ true
    → On (Inv n raw end) (consume_data s chunk)
unfolding consume_data
consume_data-On n raw end offset s chunk l i c named =
    guarded (Inv n raw end) s.data_seen duplicate_data rest (λ _.
      guarded (Inv n raw end) (chunk.body_bytes == 0) empty_data last (λ filled.
        guarded (Inv n raw end) (not (chunk.body_bytes % 2 == 0)) unaligned_data (ok taken) (λ even.
          record {
            counted = i.counted;
            behind_header = i.behind_header;
            same_end = i.same_end;
            region = inr (is_region filled even);
          })))
  where
    taken : WavInspection
    taken = record s {
      spec = record { data_offset = chunk.body_offset; data_bytes = chunk.body_bytes };
      data_seen = true;
    }

    last : Result InspectError WavInspection
    last = if not (chunk.body_bytes % 2 == 0) then err unaligned_data else ok taken

    rest : Result InspectError WavInspection
    rest = if chunk.body_bytes == 0 then err empty_data else last

    is_region :
        (chunk.body_bytes == 0) ≡ false
        → not (chunk.body_bytes % 2 == 0) ≡ false
        → IsRegion raw end taken.spec
    is_region filled even = record {
      at = offset;
      starts = c.1;
      behind_header = l;
      is_data = subst (λ id. text_eq id (codes "data") ≡ true) c.0 named;
      sized = c.2;
      inside = omega arith;
      some_samples = ground arith;
      whole_samples = ground arith;
    }

consume_chunk-On :
    (n : ℕ) (raw : List ℕ) (end : ℕ) (s : WavInspection) (chunk : InspectedChunk)
    → Inv n raw end s
    → IsChunkAt raw s.offset end chunk
    → On (Inv (n + 1) raw end) (consume_chunk raw s chunk)
unfolding consume_chunk
consume_chunk-On n raw end s chunk i c =
    if-split (On (Inv (n + 1) raw end)) (text_eq chunk.id (codes "fmt "))
      (if s.format_seen then err duplicate_fmt else inspect_format raw went_on chunk) others
      (λ _.
        guarded (Inv (n + 1) raw end) s.format_seen duplicate_fmt (inspect_format raw went_on chunk)
          (λ _. inspect_format-On (n + 1) raw end went_on chunk kept))
      (λ _.
        if-split (On (Inv (n + 1) raw end)) (text_eq chunk.id (codes "data"))
          (consume_data went_on chunk) (ok went_on)
          (consume_data-On (n + 1) raw end s.offset went_on chunk i.behind_header kept c)
          (λ _. kept))
  where
    went_on : WavInspection
    went_on = record s { chunks = s.chunks + 1; offset = chunk.next_offset }

    others : Result InspectError WavInspection
    others = if text_eq chunk.id (codes "data") then consume_data went_on chunk else ok went_on

    kept : Inv (n + 1) raw end went_on
    kept = record {
      counted = omega (arith, i.counted);
      behind_header = omega (arith, i.behind_header, c.1, c.3);
      same_end = i.same_end;
      region = i.region;
    }

consume_read-On :
    (n : ℕ) (raw : List ℕ) (end : ℕ) (s : WavInspection) (r : Result InspectError InspectedChunk)
    → Inv n raw end s
    → On (IsChunkAt raw s.offset end) r
    → On (Inv (n + 1) raw end) (consume_read raw s r)
unfolding consume_read
consume_read-On n raw end s (err e) i c = tt
consume_read-On n raw end s (ok chunk) i c = consume_chunk-On n raw end s chunk i c

pub consume_next-On :
    (n : ℕ) (raw : List ℕ) (end : ℕ) (s : WavInspection)
    → Inv n raw end s
    → On (Inv (n + 1) raw end) (consume_next raw s)
unfolding consume_next
consume_next-On n raw end s i =
    guarded (Inv (n + 1) raw end) (leb max_riff_chunks s.chunks) too_many_chunks
      (consume_read raw s (inspect_chunk raw s.offset s.end))
      (λ _. consume_read-On n raw end s (inspect_chunk raw s.offset s.end) i (
        subst (λ m. On (IsChunkAt raw s.offset m) (inspect_chunk raw s.offset s.end)) i.same_end
          (inspect_chunk-On raw s.offset s.end)))
