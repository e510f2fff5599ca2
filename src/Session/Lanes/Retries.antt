-- ===== src/Session/Lanes/Retries.antt =====
-- The delay before a failed lane is tried again, of internal/core/session/runtime.go.
use prukka.Base.{ℕ, zero, suc, ◌*◌, ◌/◌, ◌≤◌, ◌≡◌, refl, inl, inr, arith, leb, Bool-cases}
use prukka.Session.Lanes.{failed_retry_base, failed_retry_max, backed_off, failed_retry_delay}

backed_off-le :
    (delay retries : ℕ)
    → delay ≤ failed_retry_max
    → (delay ≤ backed_off delay retries) × (backed_off delay retries ≤ failed_retry_max)
unfolding backed_off
backed_off-le delay zero h = (omega arith, h)
backed_off-le delay (suc retries) h = elim (Bool-cases (leb (failed_retry_max / 2) delay)) [
  | inl e ↦ rw (e, backed_off) (h, omega arith)
  | inr e ↦
      let (lo, hi) = backed_off-le (delay * 2) retries (ground arith) in
      rw (e, backed_off) (omega (arith, lo), hi)
]

-- Five doublings reach the maximum, whatever is left of the retries.
five_doublings :
    (n : ℕ) → backed_off failed_retry_base (suc (suc (suc (suc (suc n))))) ≡ failed_retry_max
unfolding backed_off
five_doublings n = refl

-- A failed lane is tried again no sooner than after ten seconds and no later than after five minutes, and
-- from its fifth retry on after exactly five minutes.
pub failed_retry_delay-le :
    (hash retries : ℕ)
    → (failed_retry_base ≤ failed_retry_delay hash retries)
      × (failed_retry_delay hash retries ≤ failed_retry_max)
      × (failed_retry_delay hash (suc (suc (suc (suc (suc retries))))) ≡ failed_retry_max)
unfolding failed_retry_delay
failed_retry_delay-le hash retries =
    let (lo, hi) = backed_off-le failed_retry_base retries (omega arith) in
    (omega (arith, lo), omega arith, omega (arith, five_doublings retries))
