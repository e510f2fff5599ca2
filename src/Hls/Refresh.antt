-- ===== src/Hls/Refresh.antt =====
-- internal/media/egress/hls/segmenter.go: what one `Append` leaves on disk.
use prukka.Base.{
  ℕ, ◌-◌, ◌≤◌, ◌<◌, ◌≡◌, refl, sym, ap, ◌∙◌, Bool, true, List, [], ◌++◌, if◌then◌else◌, ltb, inl,
  inr, arith, Text,
}
use prukka.Captions.{Cue}
use prukka.Hls.{
  Disk, Segmenter, add_cues, write_parts, write_playlist, put_playlist, window_segments,
  window_start, evict, append_cues, playlist_head,
}
use prukka.Hls.Parts.{landed, add_cues-cues, Good, add_cues-Pending}
use prukka.Hls.Mirror.{
  IsWritable, write_parts-same, write_parts-Good, entries, list_parts-Lists, Mirrors, evict-Mirrors,
}

pub record Refreshes (s : Segmenter) (cues : List Cue) (s' : Segmenter) : Type 0 where
  pub mirrors : (j : ℕ) → Mirrors s' j
  pub lands :
      (j : ℕ) → s'.cues j ≡ (if ltb j (window_start s') then [] else s.cues j ++ landed j cues)
  pub listed :
      s'.playlist
      ≡ playlist_head (window_start s') ++ entries (s'.next - window_start s') (window_start s')

Mirrors-Good : (s : Segmenter) (j : ℕ) → Mirrors s j → Good s j
Mirrors-Good s j (inl (a, b, full)) = inr (b, full)
Mirrors-Good s j (inr empty) = inl empty

module _ (can_write : ℕ → Text → Bool) (can_write_playlist : Text → Bool) where
  record Plays (s s' : Segmenter) : Type 0 where
    same_cues : s'.cues ≡ s.cues
    same_next : s'.next ≡ s.next
    good : (j : ℕ) → Good s' j
    parts : (j : ℕ) → window_start s ≤ j → j < s.next → s'.parts j ≡ true
    text :
        s'.playlist
        ≡ playlist_head (window_start s) ++ entries (s.next - window_start s) (window_start s)

  write_playlist-Plays :
      (s : Segmenter)
      → IsWritable can_write
      → ((text : Text) → can_write_playlist text ≡ true)
      → ((j : ℕ) → Good s j)
      → Plays s (write_playlist can_write can_write_playlist s)
  unfolding write_playlist
  write_playlist-Plays s w wp g =
      let first = window_start s in
      let l =
        list_parts-Lists can_write (s.next - first) first s (playlist_head first) w (omega arith)
          g in
      rw (l.listed, put_playlist)
        (rw (wp _) (record {
          same_cues = l.cues;
          same_next = l.next;
          good = l.good;
          parts = l.window;
          text = refl;
        }))

  evict-Refreshes :
      (can_remove : ℕ → Bool) (s : Segmenter) (cues : List Cue) (s₁ s₂ : Segmenter)
      → ((j : ℕ) → s₁.cues j ≡ s.cues j ++ landed j cues)
      → ((j : ℕ) → can_remove j ≡ true)
      → Plays s₁ s₂
      → Refreshes s cues (evict can_remove s₂)
  unfolding evict
  evict-Refreshes can_remove s cues s₁ s₂ c r p = record {
    mirrors = λ j.
        evict-Mirrors can_remove s₂ j (r j) (p.good j)
          (λ a b. p.parts j (omega (arith, p.same_next)) (omega (arith, p.same_next)));
    lands = λ j.
        ap (λ cs. if ltb j (window_start s₂) then [] else cs) (ap (λ f. f j) p.same_cues ∙ c j);
    listed =
        p.text
        ∙ ap
            (λ n.
              playlist_head (n - window_segments)
              ++ entries (n - (n - window_segments)) (n - window_segments))
            (sym p.same_next);
  }

-- No write and no removal of a part or of the playlist fails.
pub record IsReliable (disk : Disk) : Type 0 where
  pub writes : (idx : ℕ) (text : Text) → disk.can_write idx text ≡ true
  pub writes_playlist : (text : Text) → disk.can_write_playlist text ≡ true
  pub removes : (idx : ℕ) → disk.can_remove idx ≡ true

-- Provided that the writes and the removals succeed, after each `Append` every part in the live window
-- is listed in the playlist and its file holds exactly its cues, and no other part has a file or cues
-- left. A part in the window has gained the new cues that overlap it, in order, whatever part they were
-- scheduled for first.
pub append_cues-Refreshes :
    (disk : Disk) (clock : ℕ → ℕ) (s : Segmenter) (cues : List Cue)
    → IsReliable disk
    → ((j : ℕ) → Mirrors s j)
    → Refreshes s cues (append_cues disk clock s cues)
unfolding append_cues
append_cues-Refreshes disk clock s cues w m =
    let st = add_cues disk.can_show clock cues (s, []) in
    let s₁ = write_parts disk.can_write st.0 st.1 in
    let good₁ : (j : ℕ) → Good s₁ j = λ j.
      write_parts-Good disk.can_write st.0 st.1 j w.writes (
        add_cues-Pending disk.can_show clock cues (s, []) j (inr (refl, Mirrors-Good s j (m j)))) in
    evict-Refreshes disk.can_write disk.can_write_playlist disk.can_remove s cues s₁
      (write_playlist disk.can_write disk.can_write_playlist s₁)
      (λ j.
        ap (λ f. f j) (write_parts-same disk.can_write st.0 st.1 w.writes).0
        ∙ add_cues-cues disk.can_show clock cues (s, []) j)
      w.removes
      (write_playlist-Plays disk.can_write disk.can_write_playlist s₁ w.writes w.writes_playlist
        good₁)
