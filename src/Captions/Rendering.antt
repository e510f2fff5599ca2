-- ===== src/Captions/Rendering.antt =====
-- internal/media/egress/vtt/vtt.go: a reader of what `timestamp` and `escape_cue` write.
use prukka.Base.{
  ℕ, zero, suc, ◌+◌, ◌*◌, ◌/◌, ◌%◌, ◌≡◌, refl, ap, ◌∙◌, false, [], ◌∷◌, ◌++◌, Option, none, some,
  inl, inr, arith, if◌then◌else◌, ◌==◌, Text, codes, after_prefix, cut_at, cut_at-append,
  contains_rune, Bool-cases,
}
use prukka.Base.Int.{ℤ, pos_part}
use prukka.Base.Decimal.{value, padded, value-padded, padded-without}
use prukka.Captions.{entity, escape_cue, timestamp, hour, minute, second, millisecond}

-- What an entity's letters stand for, and how many code points follow its ampersand.
abbrev entity_at : Text → Option (ℕ × ℕ)
entity_at rest = elim (after_prefix (codes "amp;") rest) [
  | some r ↦ some (b'&', 4)
  | none ↦ elim (after_prefix (codes "lt;") rest) [
    | some r ↦ some (b'<', 3)
    | none ↦ elim (after_prefix (codes "gt;") rest) [ some r ↦ some (b'>', 3) | none ↦ none ]
  ]
]

-- A reader of cue text: an entity is read as what it stands for; `skip` code points of one are to come.
unfoldable pub read_cue : ℕ → Text → Text
read_cue skip [] = []
read_cue (suc skip) (c ∷ cs) = read_cue skip cs
read_cue zero (c ∷ cs) =
    let plain = read_cue zero cs in
    let four = read_cue 4 cs in
    let three = read_cue 3 cs in
    if c == b'&'
    then elim (entity_at cs) [
      | some (meant, n) ↦ meant ∷ (if n == 4 then four else three)
      | none ↦ c ∷ plain
    ]
    else c ∷ plain

read_cue-entity : (c : ℕ) (rest : Text) → read_cue zero (entity c ++ rest) ≡ c ∷ read_cue zero rest
unfolding read_cue entity
read_cue-entity c rest = elim (Bool-cases (c == b'&')) [
  | inl e ↦ let h : c ≡ b'&' = ground arith in rw (e, h) refl
  | inr e ↦ elim (Bool-cases (c == b'<')) [
    | inl f ↦ let h : c ≡ b'<' = ground arith in rw (e, f, h) refl
    | inr f ↦ elim (Bool-cases (c == b'>')) [
      | inl g ↦ let h : c ≡ b'>' = ground arith in rw (e, f, g, h) refl
      | inr g ↦ rw (e, f, g, e) refl
    ]
  ]
]

-- A reader of the cue text gets back the text that was escaped, whatever characters it holds.
pub read_cue-escape_cue : (text : Text) → read_cue zero (escape_cue text) ≡ text
unfolding escape_cue
read_cue-escape_cue [] = unfold read_cue in refl
read_cue-escape_cue (c ∷ cs) =
    read_cue-entity c (escape_cue cs) ∙ ap (◌∷◌ c) (read_cue-escape_cue cs)

-- A reader of HH:MM:SS.mmm, in milliseconds.
unfoldable pub read_timestamp : Text → ℕ
read_timestamp s =
    let (h, after_h, _) = cut_at b':' s in
    let (m, after_m, _) = cut_at b':' after_h in
    let (sec, ms, _) = cut_at b'.' after_m in
    ((value h * 60 + value m) * 60 + value sec) * 1000 + value ms

read_parts :
    (h m s ms : Text)
    → contains_rune h b':' ≡ false
    → contains_rune m b':' ≡ false
    → contains_rune s b'.' ≡ false
    → read_timestamp (h ++ (b':' ∷ (m ++ (b':' ∷ (s ++ (b'.' ∷ ms))))))
      ≡ ((value h * 60 + value m) * 60 + value s) * 1000 + value ms
unfolding read_timestamp
read_parts h m s ms ih im is =
    rw (cut_at-append b':' h _ ih, cut_at-append b':' m _ im, cut_at-append b'.' s ms is) refl

-- A reader of a printed timestamp gets the whole milliseconds of the instant, and zero for an instant
-- before the source's start.
pub read_timestamp-timestamp : (t : ℤ) → read_timestamp (timestamp t) ≡ pos_part t / millisecond
unfolding timestamp hour minute second millisecond
read_timestamp-timestamp t =
    let d = pos_part t in
    read_parts (padded 2 (d / hour)) (padded 2 (d % hour / minute)) (padded 2 (d % minute / second))
      (padded 3 (d % second / millisecond)) (padded-without 2 (d / hour) b':' refl)
      (padded-without 2 (d % hour / minute) b':' refl)
      (padded-without 2 (d % minute / second) b'.' refl)
    ∙ simp value-padded (omega arith)
