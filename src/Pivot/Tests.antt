-- ===== src/Pivot/Tests.antt =====
-- Routes of internal/providers/pivot/pivot.go over English.
use prukka.Base.{
  ◌≡◌, refl, Bool, true, ◌&&◌, ◌||◌, none, some, Text, codes, text_eq, if◌then◌else◌, ◌++◌,
}
use prukka.Base.Unicode.{ascii}
use prukka.Lang.{same_lang}
use prukka.Pivot.{english, Segment, Inner, Translator, supports, translate, warm}
use prukka.Pivot.Routes.{Answers, translate_supported}

-- Models from and to English for Italian and French.
abbrev pair : Text → Text → Bool
pair from to =
    (text_eq from english && (text_eq to (codes "it") || text_eq to (codes "fr")))
    || (text_eq to english && (text_eq from (codes "it") || text_eq from (codes "fr")))

abbrev models : Inner
models = record {
  supports = pair;
  translate = λ s to. if pair s.lang to then some (s.text ++ to) else none;
  warm = λ from to. if pair from to then some tt else none;
}

abbrev hubbed : Translator
hubbed = record { inner = models; hub = english }

abbrev ciao : Segment
ciao = record { text = codes "ciao"; lang = codes "it"; span = (3, 4) }

models-Answers : Answers models
models-Answers = record {
  translates = λ s to h. (s.text ++ to, rw h refl);
  warms = λ from to h. rw h refl;
}

bridged : translate ascii hubbed ciao (codes "fr") ≡ some (codes "ciaoenfr")
unfolding translate same_lang
bridged = refl

admitted : supports ascii hubbed (codes "it") (codes "fr") ≡ true
unfolding supports same_lang
admitted = refl

translate_supported_example :
    ((r : Text) × (translate ascii hubbed ciao (codes "fr") ≡ some r))
    × (warm ascii hubbed (codes "it") (codes "fr") ≡ some tt)
translate_supported_example =
    translate_supported ascii hubbed ciao (codes "fr") models-Answers admitted
