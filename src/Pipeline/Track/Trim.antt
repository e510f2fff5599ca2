-- ===== src/Pipeline/Track/Trim.antt =====
-- Retention: `trim` bounds the memory of a track, and never cuts what a live consumer has yet to play.
use prukka.Base.{
  ℕ, ◌+◌, ◌-◌, ◌*◌, ◌≤◌, ◌<◌, ◌≡◌, ◌∙◌, max, false, List, arith, length, is_empty, length-drop,
}
use prukka.Pipeline.Units.{Sample, samples_for, duration_for_lem, duration_for-samples_for-le}
use prukka.Pipeline.Track.{
  Track, track_keep, track_slack, drop_to, fenced_keep, trim, anchor_at, offset_for, place, append,
}

trim-base-le :
    (t : Track)
    → 0 < t.consumers
    → 0 < t.floor
    → t.base ≤ t.floor
    → (t.base ≤ (trim t).base) × ((trim t).base ≤ t.floor)
unfolding trim drop_to fenced_keep
trim-base-le t c f b = ground (
  arith,
  duration_for-samples_for-le (t.floor - t.base),
  duration_for_lem (samples_for (t.floor - t.base)),
)

-- While a consumer plays, an append drops nothing at or after the instant up to which the track has been
-- rendered: the oldest instant kept slides forward, and not past the fence.
pub append-fence :
    (now at : ℕ) (samples : List Sample) (t : Track)
    → is_empty t.buf ≡ false
    → 0 < t.consumers
    → 0 < t.floor
    → t.base ≤ t.floor
    → (t.base ≤ (append now at samples t).0.base) × ((append now at samples t).0.base ≤ t.floor)
unfolding append anchor_at place
append-fence now at samples t live c f b =
    rw live (trim-base-le (place (offset_for (max at t.floor) t) samples t) c f b)

trim-length-le :
    (t : Track)
    → t.consumers ≡ 0
    → length (trim t).buf ≤ samples_for (track_keep + t.delay) + samples_for track_slack
unfolding trim drop_to fenced_keep
trim-length-le t c =
    let keep = samples_for (track_keep + t.delay) in
    ground (arith, length-drop (length t.buf - keep) t.buf)

-- With no consumer registered a track never holds more than the retention window, the session's delay
-- and the slack: 45 seconds and the delay, at 16 samples a millisecond.
pub append-bounded :
    (now at : ℕ) (samples : List Sample) (t : Track)
    → t.consumers ≡ 0
    → length (append now at samples t).0.buf * 62500 ≤ track_keep + track_slack + t.delay
unfolding append samples_for
append-bounded now at samples t c =
    let t₁ = anchor_at now (max at t.floor) t in
    let t₂ = place (offset_for (max at t.floor) t₁) samples t₁ in
    let (same, delay) = kept_fields now at samples in
    omega (arith, trim-length-le t₂ (same ∙ c), delay)
  where
    kept_fields :
        (now at : ℕ) (samples : List Sample)
        → let t₁ = anchor_at now (max at t.floor) t in
          let t₂ = place (offset_for (max at t.floor) t₁) samples t₁ in
          (t₂.consumers ≡ t.consumers) × (t₂.delay ≡ t.delay)
    kept_fields now at samples = ground arith
