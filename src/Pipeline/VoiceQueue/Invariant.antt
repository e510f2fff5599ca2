-- ===== src/Pipeline/VoiceQueue/Invariant.antt =====
-- The well-formedness of a voice queue, and that each operation keeps it: heads stay inside the
-- buffer, the map holds the cursors that play, the group counts them, and the backlog is bounded.
use prukka.Base.{
  ℕ, zero, suc, ◌+◌, ◌-◌, ◌≤◌, ◌≡◌, refl, min, true, false, not, ◌&&◌, some, List, [], ◌∷◌, ◌++◌,
  map, ◌⊎◌, inl, inr, arith, ltb, if◌then◌else◌, length, get_elem?, set, All, length-drop,
  length-append, All-append, Bool-cases,
}
use prukka.Pipeline.Units.{Sample}
use prukka.Pipeline.Group.{IsSound, new_group-IsSound}
use prukka.Pipeline.VoiceQueue.{
  VoiceCursor, VoiceQueue, new_voice_queue, new_cursor, cursor, lowest_head, consumed_locked,
  clamp_head, discard_locked, compact, shed, enqueue, append, finish,
}

abbrev pub count_listed : List VoiceCursor → ℕ
count_listed [] = 0
count_listed (c ∷ cs) = if c.listed then suc (count_listed cs) else count_listed cs

-- A cursor of a queue whose buffer holds `len` samples.
pub record CursorOk (len : ℕ) (c : VoiceCursor) : Type 0 where
  pub inside : c.listed ≡ true → c.head ≤ len
  pub listing : c.listed ≡ (c.accepted && not c.released)
  pub joined : c.accepted ≡ true → c.registered ≡ true
  pub fresh : c.registered ≡ false → (c.head ≡ 0) × (c.released ≡ false)

-- What holds also between the steps of one operation.
pub record IsLinked (q : VoiceQueue) : Type 0 where
  pub cursors_ok : All (CursorOk (length q.buf)) q.cursors
  pub counted : q.group.active ≡ count_listed q.cursors
  pub sound : IsSound q.group

abbrev pub IsCapped : VoiceQueue → Type 0
IsCapped q = (q.max_lead ≡ 0) ⊎ (length q.buf ≤ q.max_lead)

pub record Inv (q : VoiceQueue) : Type 0 where
  pub linked : IsLinked q
  pub capped : IsCapped q

pub count_listed-set :
    (cs : List VoiceCursor) (i : ℕ) (c d : VoiceCursor)
    → get_elem? cs i ≡ some c
    → count_listed (set cs i d) + count_listed (c ∷ []) ≡ count_listed cs + count_listed (d ∷ [])
count_listed-set [] i c d h = cc
count_listed-set (x ∷ cs) zero c d h = ground arith
count_listed-set (x ∷ cs) (suc i) c d h = ground (arith, count_listed-set cs i c d h)

count_listed-clamp :
    (n : ℕ) (cs : List VoiceCursor) → count_listed (map (clamp_head n) cs) ≡ count_listed cs
count_listed-clamp n [] = refl
count_listed-clamp n (c ∷ cs) = ground (arith, count_listed-clamp n cs)

clamp_head-CursorOk :
    (len n : ℕ) (c : VoiceCursor) → CursorOk len c → CursorOk (len - n) (clamp_head n c)
clamp_head-CursorOk len n c k = ground arith

CursorsOk-clamp :
    (len n : ℕ) (cs : List VoiceCursor)
    → All (CursorOk len) cs
    → All (CursorOk (len - n)) (map (clamp_head n) cs)
CursorsOk-clamp len n [] a = tt
CursorsOk-clamp len n (c ∷ cs) a = (clamp_head-CursorOk len n c a.0, CursorsOk-clamp len n cs a.1)

CursorsOk-mono :
    (len more : ℕ) (cs : List VoiceCursor)
    → All (CursorOk len) cs
    → len ≤ more
    → All (CursorOk more) cs
CursorsOk-mono len more [] a h = tt
CursorsOk-mono len more (c ∷ cs) a h = (ground (arith, a.0), CursorsOk-mono len more cs a.1 h)

pub lowest_head-le : (n : ℕ) (cs : List VoiceCursor) → lowest_head n cs ≤ n
lowest_head-le n [] = omega arith
lowest_head-le n (c ∷ cs) = ground (arith, lowest_head-le n cs, lowest_head-le (min n c.head) cs)

pub consumed-le-length : (q : VoiceQueue) → consumed_locked q ≤ length q.buf
unfolding consumed_locked
consumed-le-length q = ground (arith, lowest_head-le (length q.buf) q.cursors)

discard-IsLinked : (n : ℕ) (q : VoiceQueue) → IsLinked q → IsLinked (discard_locked n q)
unfolding discard_locked
discard-IsLinked n q v = record {
  cursors_ok = rw (length-drop n q.buf) (CursorsOk-clamp (length q.buf) n q.cursors v.cursors_ok);
  counted = omega (arith, v.counted, count_listed-clamp n q.cursors);
  sound = v.sound;
}

compact-IsLinked : (q : VoiceQueue) → IsLinked q → IsLinked (compact q)
unfolding compact
compact-IsLinked q v = elim (Bool-cases (ltb 0 (consumed_locked q))) [
  | inl e ↦ rw e (discard-IsLinked (consumed_locked q) q v)
  | inr e ↦ rw e v
]

shed-IsLinked : (q : VoiceQueue) → IsLinked q → IsLinked (shed q)
unfolding shed
shed-IsLinked q v = elim (Bool-cases (ltb 0 q.max_lead && ltb q.max_lead (length q.buf))) [
  | inl e ↦ rw e (discard-IsLinked (length q.buf - q.max_lead) q v)
  | inr e ↦ rw e v
]

shed-IsCapped : (q : VoiceQueue) → IsCapped (shed q)
unfolding shed discard_locked
shed-IsCapped q = ground (arith, length-drop (length q.buf - q.max_lead) q.buf)

enqueue-IsLinked :
    (samples : List Sample) (q : VoiceQueue) → IsLinked q → IsLinked (enqueue samples q)
enqueue-IsLinked samples q v = record {
  cursors_ok =
      CursorsOk-mono (length q.buf) (length (q.buf ++ samples)) q.cursors v.cursors_ok
        (omega (arith, length-append q.buf samples));
  counted = v.counted;
  sound = v.sound;
}

pub new_voice_queue-Inv : (lead : ℕ) → Inv (new_voice_queue lead)
unfolding new_voice_queue
new_voice_queue-Inv lead = record {
  linked = record { cursors_ok = tt; counted = refl; sound = new_group-IsSound };
  capped = inr (omega arith);
}

pub append-Inv :
    (at : ℕ) (samples : List Sample) (q : VoiceQueue) → Inv q → Inv (append at samples q).0
unfolding append
append-Inv at samples q v = record {
  linked =
      shed-IsLinked (enqueue samples (compact q))
        (enqueue-IsLinked samples (compact q) (compact-IsLinked q v.linked));
  capped = shed-IsCapped (enqueue samples (compact q));
}

pub finish-Inv : (q : VoiceQueue) → Inv q → Inv (finish q)
unfolding finish
finish-Inv q v = record {
  linked = record {
    cursors_ok = v.linked.cursors_ok;
    counted = v.linked.counted;
    sound = v.linked.sound;
  };
  capped = v.capped;
}

count_listed-append :
    (cs ds : List VoiceCursor) → count_listed (cs ++ ds) ≡ count_listed cs + count_listed ds
count_listed-append [] ds = omega arith
count_listed-append (c ∷ cs) ds = ground (arith, count_listed-append cs ds)

new_cursor-CursorOk : (len : ℕ) → CursorOk len new_cursor
new_cursor-CursorOk len = ground arith

pub cursor-Inv : (q : VoiceQueue) → Inv q → Inv (cursor q)
unfolding cursor
cursor-Inv q v = record {
  linked = record {
    cursors_ok =
        All-append (CursorOk (length q.buf)) q.cursors (new_cursor ∷ []) v.linked.cursors_ok
          (new_cursor-CursorOk _, tt);
    counted = omega (arith, v.linked.counted, count_listed-append q.cursors (new_cursor ∷ []));
    sound = v.linked.sound;
  };
  capped = v.capped;
}
