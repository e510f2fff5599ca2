-- ===== src/Pivot/Routes.antt =====
-- The verdict of `Supported` and what `Translate` and `Warm` then do.
use prukka.Base.{◌≡◌, refl, Bool, true, false, some, ◌⊎◌, inl, inr, arith, Text, Bool-cases}
use prukka.Base.Unicode.{Unicode}
use prukka.Lang.{same_lang}
use prukka.Pivot.{Segment, Inner, Translator, supported, supports, translate, warm, hub_leg}

-- The verdict in full: a copy, a direct pair, or two legs through a hub that is neither end.
pub Route : Unicode → (Text → Text → Bool) → Text → Text → Text → Type 0
Route u direct hub from to =
    (same_lang u from to ≡ true)
    ⊎ ((direct from to ≡ true)
        ⊎ ((same_lang u from hub ≡ false)
            × (same_lang u to hub ≡ false)
            × (direct from hub ≡ true)
            × (direct hub to ≡ true)))

pub supported_iff :
    (u : Unicode) (direct : Text → Text → Bool) (hub from to : Text)
    → (supported u direct hub from to ≡ true → Route u direct hub from to)
      × (Route u direct hub from to → supported u direct hub from to ≡ true)
unfolding supported Route
supported_iff u direct hub from to = (
  λ h. (elim (Bool-cases (same_lang u from to)) [
    | inl e ↦ inl e
    | inr e ↦ (elim (Bool-cases (direct from to)) [
      | inl d ↦ inr (inl d)
      | inr d ↦ inr (inr (ground arith, ground arith, ground arith, ground arith))
    ])
  ]),
  λ r. (elim r [ inl e ↦ ground arith | inr (inl d) ↦ ground arith | inr (inr w) ↦ ground arith ]),
)

-- A verdict that is neither a copy nor a direct pair has both legs.
hub_legs :
    (u : Unicode) (direct : Text → Text → Bool) (hub from to : Text)
    → same_lang u from to ≡ false
    → direct from to ≡ false
    → supported u direct hub from to ≡ true
    → (direct from hub ≡ true) × (direct hub to ≡ true)
unfolding supported
hub_legs u direct hub from to e d h = (ground arith, ground arith)

-- The inner translator answers for the pairs that it claims, and a hub leg for its text.
pub record Answers (i : Inner) : Type 0 where
  pub translates :
      (s : Segment) (to : Text)
      → i.supports s.lang to ≡ true
      → (r : Text) × (i.translate s to ≡ some r)
  pub warms : (from to : Text) → i.supports from to ≡ true → i.warm from to ≡ some tt

-- Admission implies service: a route that `Supports` admits is translated and warmed.
pub translate_supported :
    (u : Unicode) (t : Translator) (source : Segment) (to : Text)
    → Answers t.inner
    → supports u t source.lang to ≡ true
    → ((r : Text) × (translate u t source to ≡ some r)) × (warm u t source.lang to ≡ some tt)
unfolding supports supported translate warm
translate_supported u t source to a h = (elim (Bool-cases (same_lang u source.lang to)) [
  | inl e ↦ ((source.text, rw e refl), rw e refl)
  | inr e ↦ (elim (Bool-cases (t.inner.supports source.lang to)) [
    | inl d ↦
        (let r = a.translates source to d in
          ((r.0, rw (e, d, r.1) refl), rw (e, d, a.warms source.lang to d) refl))
    | inr d ↦
        (let legs = hub_legs u t.inner.supports t.hub source.lang to e d h in
          let mid = a.translates source t.hub legs.0 in
          let r = a.translates (hub_leg t source mid.0) to legs.1 in
          (
            (r.0, rw (e, d, mid.1, r.1) refl),
            rw (e, d, a.warms source.lang t.hub legs.0, a.warms t.hub to legs.1) refl,
          ))
  ])
])
