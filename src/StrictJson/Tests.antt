-- ===== src/StrictJson/Tests.antt =====
-- internal/strictjson/strictjson.go at concrete documents.
use prukka.Base.{◌≡◌, refl, false, none, some, codes, if◌then◌else◌}
use prukka.StrictJson.{duplicate_key, reject_duplicate_keys}
use prukka.StrictJson.Trees.{
  Json, literal, text, array, object, no_item, item, no_member, member, tokens, duplicates,
  reject_duplicate_keys-tokens,
}

-- {"a": {"k": 1, "k": "x"}, "b": ["k"]}
abbrev deep : Json
deep = object (
    member (codes "a")
      (object (member (codes "k") literal (member (codes "k") (text (codes "x")) no_member)))
      (member (codes "b") (array (item (text (codes "k")) no_item)) no_member))

-- The same key in two objects is no duplicate.
abbrev clean : Json
clean = object (member (codes "k") (object (member (codes "k") literal no_member)) no_member)

deep_refused : reject_duplicate_keys (tokens deep) false ≡ some duplicate_key
unfolding reject_duplicate_keys tokens
deep_refused = refl

clean_accepted : reject_duplicate_keys (tokens clean) false ≡ none
unfolding reject_duplicate_keys tokens
clean_accepted = refl

reject_duplicate_keys-tokens_example :
    reject_duplicate_keys (tokens deep) false
    ≡ (if duplicates deep then some duplicate_key else none)
reject_duplicate_keys-tokens_example = reject_duplicate_keys-tokens deep
