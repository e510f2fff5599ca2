-- ===== src/Lang/Tests.antt =====
-- Tags and lists of tags as internal/core/lang/lang.go parses them.
use prukka.Base.{◌≡◌, refl, none, some, [], ◌∷◌, codes}
use prukka.Base.Unicode.{ascii}
use prukka.Lang.{lang_auto, registry, parse, parse_list}
use prukka.Lang.Laws.{IsCollected, parse_list-IsCollected}

parses : parse ascii (codes " pt_br ") ≡ some (codes "pt-BR")
unfolding parse registry
parses = refl

parses_auto : parse ascii (codes "AUTO") ≡ some lang_auto
unfolding parse
parses_auto = refl

refuses_three : parse ascii (codes "eng") ≡ none
unfolding parse
refuses_three = refl

parses_list :
    parse_list ascii (codes "it, en,,IT,pt-br")
    ≡ some (codes "it" ∷ codes "en" ∷ codes "pt-BR" ∷ [])
unfolding parse_list parse registry
parses_list = refl

parse_list-IsCollected_example : IsCollected ascii (codes "it" ∷ codes "en" ∷ codes "pt-BR" ∷ [])
parse_list-IsCollected_example =
    parse_list-IsCollected ascii (codes "it, en,,IT,pt-br")
      (codes "it" ∷ codes "en" ∷ codes "pt-BR" ∷ []) parses_list
