-- ===== src/StrictJson/Trees.antt =====
-- internal/strictjson/strictjson.go against a reference on documents as trees.
use prukka.Base.{
  ◌≡◌, refl, sym, ap, ◌∙◌, Bool, true, false, ◌||◌, Option, none, some, List, [], ◌∷◌, ◌++◌,
  if◌then◌else◌, Bool-cases, Option-cases, inl, inr, arith, Text, contains, append_assoc,
  append-nil,
}
use prukka.Base.Result.{ok, err}
use prukka.Base.Distinct.{text_eq_comm}
use prukka.StrictJson.{
  Token, open_object, open_array, close, scalar, string, JsonError, duplicate_key, Frame,
  object_frame, array_frame, is_object, restored, popped, note_in, note_keys, note, noted, step,
  walk, reject_duplicate_keys,
}

-- A document; `literal` is a number, a Boolean or null.
mutual
  pub data Json : Type 0 where
    literal : Json
    text : Text → Json
    array : Items → Json
    object : Members → Json

  pub data Items : Type 0 where
    no_item : Items
    item : Json → Items → Items

  pub data Members : Type 0 where
    no_member : Members
    member : Text → Json → Members → Members

unfoldable mutual
  pub tokens : Json → List Token
  tokens literal = scalar ∷ []
  tokens (text s) = string s ∷ []
  tokens (array vs) = open_array ∷ (item_tokens vs ++ (close ∷ []))
  tokens (object ms) = open_object ∷ (member_tokens ms ++ (close ∷ []))

  pub item_tokens : Items → List Token
  item_tokens no_item = []
  item_tokens (item v vs) = tokens v ++ item_tokens vs

  pub member_tokens : Members → List Token
  member_tokens no_member = []
  member_tokens (member k v ms) = string k ∷ (tokens v ++ member_tokens ms)

abbrev pub keys_of : Members → List Text
keys_of no_member = []
keys_of (member k v ms) = k ∷ keys_of ms

abbrev pub repeats : List Text → Bool
repeats [] = false
repeats (k ∷ ks) = contains k ks || repeats ks

-- Whether some object, at any depth, names a key twice.
unfoldable mutual
  pub duplicates : Json → Bool
  duplicates literal = false
  duplicates (text s) = false
  duplicates (array vs) = item_duplicates vs
  duplicates (object ms) = repeats (keys_of ms) || member_duplicates ms

  pub item_duplicates : Items → Bool
  item_duplicates no_item = false
  item_duplicates (item v vs) = duplicates v || item_duplicates vs

  pub member_duplicates : Members → Bool
  member_duplicates no_member = false
  member_duplicates (member k v ms) = duplicates v || member_duplicates ms

-- What the walk finds in the members of an object of which the keys `seen` have been read.
found : List Text → Members → Bool
unfolding duplicates
found seen no_member = false
found seen (member k v ms) = contains k seen || (duplicates v || found (k ∷ seen) ms)

abbrev overlaps : List Text → List Text → Bool
overlaps seen [] = false
overlaps seen (k ∷ ks) = contains k seen || overlaps seen ks

overlaps-cons :
    (k : Text) (seen ks : List Text) → overlaps (k ∷ seen) ks ≡ (contains k ks || overlaps seen ks)
overlaps-cons k seen [] = refl
overlaps-cons k seen (j ∷ ks) = ground (arith, overlaps-cons k seen ks, text_eq_comm k j)

found_lem :
    (seen : List Text) (ms : Members)
    → found seen ms ≡ (overlaps seen (keys_of ms) || (repeats (keys_of ms) || member_duplicates ms))
unfolding found duplicates
found_lem seen no_member = refl
found_lem seen (member k v ms) =
    ground (arith, found_lem (k ∷ seen) ms, overlaps-cons k seen (keys_of ms))

overlaps-nil : (ks : List Text) → overlaps [] ks ≡ false
overlaps-nil [] = refl
overlaps-nil (k ∷ ks) = overlaps-nil ks

abbrev reverse_onto : List Text → List Text → List Text
reverse_onto [] seen = seen
reverse_onto (k ∷ ks) seen = reverse_onto ks (k ∷ seen)

-- A stack that is ready for a value.
abbrev Ready : List Frame → Type 0
Ready [] = Unit
Ready (f ∷ stack) = f.expect_key ≡ false

abbrev answer : Bool → Option JsonError → Option JsonError
answer dup more = if dup then some duplicate_key else more

walk-ok :
    (stack stack' : List Frame) (t : Token) (ts : List Token) (failed : Bool)
    → step stack t ≡ ok stack'
    → walk stack (t ∷ ts) failed ≡ walk stack' ts failed
unfolding walk
walk-ok stack stack' t ts failed e = rw (e, walk) refl

walk-err :
    (stack : List Frame) (t : Token) (ts : List Token) (failed : Bool) (x : JsonError)
    → step stack t ≡ err x
    → walk stack (t ∷ ts) failed ≡ some x
unfolding walk
walk-err stack t ts failed x e = rw (e, walk) refl

-- A value that is no container leaves the stack ready for what comes after a value.
note-value :
    (f : Frame) (t : Token)
    → ((seen : List Text) → note_in f seen t ≡ ok (record f { expect_key = true }))
    → f.expect_key ≡ false
    → note f t ≡ ok (record f { expect_key = is_object f })
unfolding note
note-value f t plain r = elim (Option-cases f.keys) [
  | inl e ↦ rw (e, note_keys) (rw (← e, ← r) refl)
  | inr (seen, e) ↦ rw (e, note_keys) (plain seen ∙ rw e refl)
]

noted-value :
    (stack : List Frame) (t : Token)
    → ((f : Frame) (seen : List Text)
        → f.expect_key ≡ false
        → note_in f seen t ≡ ok (record f { expect_key = true }))
    → Ready stack
    → noted stack t ≡ ok (restored stack)
unfolding noted restored
noted-value [] t plain r = refl
noted-value (f ∷ stack) t plain r = rw (note-value f t (λ seen. plain f seen r) r, noted) refl

walk-scalar :
    (stack : List Frame) (rest : List Token) (failed : Bool)
    → Ready stack
    → walk stack (scalar ∷ rest) failed ≡ walk (restored stack) rest failed
walk-scalar stack rest failed r =
    walk-ok stack (restored stack) scalar rest failed
      (unfold step in noted-value stack scalar (λ f seen e. unfold note_in in rw e refl) r)

walk-string :
    (s : Text) (stack : List Frame) (rest : List Token) (failed : Bool)
    → Ready stack
    → walk stack (string s ∷ rest) failed ≡ walk (restored stack) rest failed
walk-string s stack rest failed r =
    walk-ok stack (restored stack) (string s) rest failed
      (unfold step in noted-value stack (string s) (λ f seen e. unfold note_in in rw e refl) r)

walk-close :
    (f : Frame) (stack : List Frame) (rest : List Token) (failed : Bool)
    → walk (f ∷ stack) (close ∷ rest) failed ≡ walk (restored stack) rest failed
unfolding walk step popped
walk-close f stack rest failed = refl

walk-key :
    (k : Text) (seen : List Text) (stack : List Frame) (rest : List Token) (failed : Bool)
    → walk (record { keys = some seen; expect_key = true } ∷ stack) (string k ∷ rest) failed
      ≡ answer
          (contains k seen)
          (walk (record { keys = some (k ∷ seen); expect_key = false } ∷ stack) rest failed)
unfolding step noted note note_keys note_in
walk-key k seen stack rest failed = elim (Bool-cases (contains k seen)) [
  | inl e ↦ rw e (
      walk-err _ (string k) rest failed duplicate_key
        (rw (e, step, noted, note, note_keys, note_in) refl))
  | inr e ↦
      rw e (walk-ok _ _ (string k) rest failed (rw (e, step, noted, note, note_keys, note_in) refl))
]

walk-open_array :
    (stack : List Frame) (rest : List Token) (failed : Bool)
    → walk stack (open_array ∷ rest) failed ≡ walk (array_frame ∷ stack) rest failed
unfolding walk step
walk-open_array stack rest failed = refl

walk-open_object :
    (stack : List Frame) (rest : List Token) (failed : Bool)
    → walk stack (open_object ∷ rest) failed ≡ walk (object_frame ∷ stack) rest failed
unfolding walk step
walk-open_object stack rest failed = refl

restored-array : (stack : List Frame) → restored (array_frame ∷ stack) ≡ array_frame ∷ stack
unfolding restored
restored-array stack = refl

restored-object :
    (seen : List Text) (stack : List Frame)
    → restored (record { keys = some seen; expect_key = false } ∷ stack)
      ≡ record { keys = some seen; expect_key = true } ∷ stack
unfolding restored
restored-object seen stack = refl

answer-or : (a b : Bool) (r : Option JsonError) → answer a (answer b r) ≡ answer (a || b) r
answer-or true b r = refl
answer-or false b r = refl

mutual
  unfolding tokens duplicates found

  walk-tokens :
      (v : Json) (stack : List Frame) (rest : List Token) (failed : Bool)
      → Ready stack
      → walk stack (tokens v ++ rest) failed
        ≡ answer (duplicates v) (walk (restored stack) rest failed)
  walk-tokens literal stack rest failed r = walk-scalar stack rest failed r
  walk-tokens (text s) stack rest failed r = walk-string s stack rest failed r
  walk-tokens (array vs) stack rest failed r =
      rw (append_assoc (item_tokens vs) (close ∷ []) rest) (
        walk-open_array stack (item_tokens vs ++ (close ∷ rest)) failed
        ∙ walk-item_tokens vs stack (close ∷ rest) failed
        ∙ ap (answer (item_duplicates vs)) (walk-close array_frame stack rest failed))
  walk-tokens (object ms) stack rest failed r =
      rw (append_assoc (member_tokens ms) (close ∷ []) rest) (
        walk-open_object stack (member_tokens ms ++ (close ∷ rest)) failed
        ∙ walk-member_tokens ms [] stack (close ∷ rest) failed
        ∙ ap (answer (found [] ms)) (walk-close _ stack rest failed)
        ∙ ap (λ b. answer b (walk (restored stack) rest failed))
            (found_lem [] ms ∙ rw (overlaps-nil (keys_of ms)) refl))

  walk-item_tokens :
      (vs : Items) (stack : List Frame) (rest : List Token) (failed : Bool)
      → walk (array_frame ∷ stack) (item_tokens vs ++ rest) failed
        ≡ answer (item_duplicates vs) (walk (array_frame ∷ stack) rest failed)
  walk-item_tokens no_item stack rest failed = refl
  walk-item_tokens (item v vs) stack rest failed =
      rw (append_assoc (tokens v) (item_tokens vs) rest) (
        walk-tokens v (array_frame ∷ stack) (item_tokens vs ++ rest) failed refl
        ∙ ap (answer (duplicates v)) (
            ap (λ st. walk st (item_tokens vs ++ rest) failed) (restored-array stack)
            ∙ walk-item_tokens vs stack rest failed)
        ∙ answer-or (duplicates v) (item_duplicates vs) (walk (array_frame ∷ stack) rest failed))

  walk-member_tokens :
      (ms : Members) (seen : List Text) (stack : List Frame) (rest : List Token) (failed : Bool)
      → walk
          (record { keys = some seen; expect_key = true } ∷ stack)
          (member_tokens ms ++ rest)
          failed
        ≡ answer (found seen ms) (
            walk
              (record { keys = some (reverse_onto (keys_of ms) seen); expect_key = true } ∷ stack)
              rest
              failed)
  walk-member_tokens no_member seen stack rest failed = refl
  walk-member_tokens (member k v ms) seen stack rest failed =
      let after : Option JsonError =
        walk
          (record { keys = some (reverse_onto (keys_of ms) (k ∷ seen)); expect_key = true } ∷ stack)
          rest failed in
      rw (append_assoc (tokens v) (member_tokens ms) rest) (
        walk-key k seen stack (tokens v ++ (member_tokens ms ++ rest)) failed
        ∙ ap (answer (contains k seen)) (
            walk-tokens v (record { keys = some (k ∷ seen); expect_key = false } ∷ stack)
              (member_tokens ms ++ rest) failed refl
            ∙ ap (answer (duplicates v)) (
                ap (λ st. walk st (member_tokens ms ++ rest) failed)
                  (restored-object (k ∷ seen) stack)
                ∙ walk-member_tokens ms (k ∷ seen) stack rest failed)
            ∙ answer-or (duplicates v) (found (k ∷ seen) ms) after)
        ∙ answer-or (contains k seen) (duplicates v || found (k ∷ seen) ms) after)

-- The walk over the tokens of a document refuses it exactly where some object in it, at any depth, names a
-- key twice, and never reads past its stack.
pub reject_duplicate_keys-tokens :
    (v : Json)
    → reject_duplicate_keys (tokens v) false ≡ (if duplicates v then some duplicate_key else none)
unfolding reject_duplicate_keys
reject_duplicate_keys-tokens v =
    ap (λ ts. walk [] ts false) (sym (append-nil (tokens v)))
    ∙ walk-tokens v [] [] false tt
    ∙ unfold walk restored in refl
