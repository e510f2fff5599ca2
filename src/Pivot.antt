-- ===== src/Pivot.antt =====
-- internal/providers/pivot/pivot.go: translation routed through a hub language. The inner translator is
-- the interface `warmable` of the source: its answers, and an error as `none`. The context is not
-- modelled: a cancelled call is one that the inner translator refuses.
pub mod Routes
mod Tests
use prukka.Base.{
  ℕ, ◌≡◌, refl, Bool, true, false, not, ◌&&◌, ◌||◌, Option, none, some, arith, if◌then◌else◌, Text,
  codes,
}
use prukka.Base.Unicode.{Unicode}
use prukka.Lang.{same_lang}

abbrev pub english : Text
english = codes "en"

pub record Segment : Type 0 where
  pub text : Text
  pub lang : Text
  pub span : ℕ × ℕ

pub record Inner : Type 0 where
  pub supports : Text → Text → Bool
  pub translate : Segment → Text → Option Text
  pub warm : Text → Text → Option (Unit {0})

unfoldable pub supported : Unicode → (Text → Text → Bool) → Text → Text → Text → Bool
supported u direct hub from to =
    if same_lang u from to
    then true
    else if direct from to
    then true
    else if same_lang u from hub || same_lang u to hub
    then false
    else direct from hub && direct hub to

pub record Translator : Type 0 where
  pub inner : Inner
  pub hub : Text

unfoldable pub supports : Unicode → Translator → Text → Text → Bool
unfolding supported
supports u t from to = supported u t.inner.supports t.hub from to

-- The second leg of a pivoted route keeps the span of the source.
abbrev pub hub_leg : Translator → Segment → Text → Segment
hub_leg t source mid = record { text = mid; lang = t.hub; span = source.span }

unfoldable pub translate : Unicode → Translator → Segment → Text → Option Text
translate u t source to =
    if same_lang u source.lang to
    then some source.text
    else if t.inner.supports source.lang to
    then t.inner.translate source to
    else (elim (t.inner.translate source t.hub) [
      | none ↦ none
      | some mid ↦ t.inner.translate (hub_leg t source mid) to
    ])

unfoldable pub warm : Unicode → Translator → Text → Text → Option (Unit {0})
warm u t from to =
    if same_lang u from to
    then some tt
    else if t.inner.supports from to
    then t.inner.warm from to
    else (elim (t.inner.warm from t.hub) [ none ↦ none | some _ ↦ t.inner.warm t.hub to ])
