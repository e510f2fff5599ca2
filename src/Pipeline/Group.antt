-- ===== src/Pipeline/Group.antt =====
-- internal/core/pipeline/playout.go: the consumers of one template. The mutex makes each method one
-- step. `closed` is the state of the `done` channel; closing it twice is a panic, which is `none`.
use prukka.Base.{
  ℕ, ◌+◌, ◌-◌, ◌<◌, ◌≡◌, refl, Bool, true, false, ◌&&◌, Option, none, some, arith, ◌==◌,
  if◌then◌else◌, Bool-cases, inl, inr,
}

pub record PlayoutGroup : Type 0 where
  pub active : ℕ
  pub sealed : Bool
  pub closed : Bool

unfoldable pub new_group : PlayoutGroup
new_group = record { active = 0; sealed = false; closed = false }

unfoldable pub acquire : PlayoutGroup → PlayoutGroup × Bool
acquire g = if g.sealed then (g, false) else (record g { active = g.active + 1 }, true)

-- `close(g.done)`.
abbrev pub close_done : PlayoutGroup → Option PlayoutGroup
close_done g = if g.closed then none else some (record g { closed = true })

-- A cursor releases only what it acquired, so `active` is positive here (`Inv` of a queue).
unfoldable pub release : PlayoutGroup → Option PlayoutGroup
release g =
    let h = record g { active = g.active - 1 } in
    if h.sealed && h.active == 0 then close_done h else some h

-- The first half of `wait`, under the lock: it seals the consumer set.
unfoldable pub seal : PlayoutGroup → Option PlayoutGroup
seal g =
    let h = record g { sealed = true } in
    if g.sealed then some g else (if g.active == 0 then close_done h else some h)

-- The second half of `wait`: the `select` between the channel and the caller's context. Where both
-- are ready Go picks either, so the outcome is a relation.
pub data WaitOutcome : PlayoutGroup → Bool → Bool → Type 0 where
  cancelled : {g : PlayoutGroup} {c : Bool} → c ≡ true → WaitOutcome g c false
  drained : {g : PlayoutGroup} {c : Bool} → g.closed ≡ true → WaitOutcome g c true

-- The channel is closed exactly when the set is sealed and empty.
pub record IsSound (g : PlayoutGroup) : Type 0 where
  pub closed_drained : g.closed ≡ true → (g.sealed ≡ true) × (g.active ≡ 0)
  pub drained_closed : g.sealed ≡ true → g.active ≡ 0 → g.closed ≡ true

pub new_group-IsSound : IsSound new_group
unfolding new_group
new_group-IsSound = ground arith

pub acquire-IsSound : (g : PlayoutGroup) → IsSound g → IsSound (acquire g).0
unfolding acquire
acquire-IsSound g s = ground arith

-- A consumer that is still registered may always release: the channel is never closed twice.
pub release-IsSound :
    (g : PlayoutGroup)
    → IsSound g
    → 0 < g.active
    → (h : PlayoutGroup) × (release g ≡ some h)
      × IsSound h
      × (h.active + 1 ≡ g.active)
      × (h.sealed ≡ g.sealed)
unfolding release
release-IsSound g s p = elim (Bool-cases g.sealed) [
  | inl e ↦ elim (Bool-cases (g.active - 1 == 0)) [
    | inl z ↦ (
      record g { active = g.active - 1; closed = true },
      ground arith,
      ground arith,
      ground arith,
      refl,
    )
    | inr z ↦ (record g { active = g.active - 1 }, ground arith, ground arith, ground arith, refl)
  ]
  | inr e ↦ (record g { active = g.active - 1 }, ground arith, ground arith, ground arith, refl)
]

-- Sealing never fails, keeps the consumers, and closes the channel at once if there are none.
pub seal-IsSound :
    (g : PlayoutGroup)
    → IsSound g
    → (h : PlayoutGroup) × (seal g ≡ some h) × IsSound h × (h.active ≡ g.active) × (h.sealed ≡ true)
unfolding seal
seal-IsSound g s = elim (Bool-cases g.sealed) [
  | inl e ↦ (g, ground arith, s, refl, e)
  | inr e ↦ elim (Bool-cases (g.active == 0)) [
    | inl z ↦ (record g { sealed = true; closed = true }, ground arith, ground arith, refl, refl)
    | inr z ↦ (record g { sealed = true }, ground arith, ground arith, refl, refl)
  ]
]
