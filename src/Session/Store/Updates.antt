-- ===== src/Session/Store/Updates.antt =====
-- That a change of the target languages is accepted whenever it leaves one: what it writes is valid by the
-- way `mergeLangs` and `retain` compute it.
use prukka.Base.{
  ◌≡◌, refl, ◌∙◌, true, false, ◌||◌, Option, none, some, List, [], ◌∷◌, ◌++◌, inl, inr, arith, Text,
  text_eq_refl, contains, is_empty, Bool-cases, All, All-append, if-either,
}
use prukka.Base.Distinct.{IsDistinct, Apart-nil}
use prukka.Base.Keyed.{find, All-find}
use prukka.Base.Result.{ok, first_of}
use prukka.Session.Model.{Platform, Failure, Session, DubSelection}
use prukka.Session.Flags.{named_in, names_ok, retain, validate_dub}
use prukka.Session.Source.{validate_source}
use prukka.Session.Validate.{
  validate, validate_identity, validate_limits, validate_languages, validate_media, validate_modes,
  validate_pair,
}
use prukka.Session.Validate.Languages.{
  IsTarget, targets_ok_sound, targets_ok_complete, names_ok_complete,
}
use prukka.Session.Store.{Store, merge_from, merge_langs, next_revision, stamped, update_langs}
use prukka.Session.Store.Langs.{merge_langs-Merges, contains-named_in, IsDistinct-named_in}
use prukka.Session.Store.Outcomes.{candidate, updated_store}
use prukka.Session.Store.Invariant.{Inv, IsEntry}

first_of-none : (a b : Option Failure) → first_of a b ≡ none → (a ≡ none) × (b ≡ none)
first_of-none none b h = (refl, h)
first_of-none (some e) b h = cc

none-first_of : {a b : Option Failure} → a ≡ none → b ≡ none → first_of a b ≡ none
none-first_of {a} {b} h k = rw (h, k) refl

All-of_contains {κ} :
    (Q : Text → Type κ) (xs : List Text) → ((x : Text) → contains x xs ≡ true → Q x) → All Q xs
All-of_contains Q [] q = tt
All-of_contains Q (x ∷ xs) q =
    (q x (ground (arith, text_eq_refl x)), All-of_contains Q xs (λ y c. q y (ground arith)))

All-merge_from {κ} :
    (Q : Text → Type κ) (drop seen ls : List Text) → All Q ls → All Q (merge_from drop seen ls)
All-merge_from Q drop seen [] a = tt
All-merge_from Q drop seen (l ∷ ls) a = elim (Bool-cases (contains l drop || contains l seen)) [
  | inl e ↦ rw e (All-merge_from Q drop seen ls a.1)
  | inr e ↦ rw e (a.0, All-merge_from Q drop (l ∷ seen) ls a.1)
]

validate-retain :
    (targets : List Text) (d : DubSelection)
    → IsDistinct targets
    → validate_dub targets (retain targets d) ≡ none
unfolding validate_dub retain
validate-retain targets d u = elim (Bool-cases d.chosen) [
  | inr e ↦ ground arith
  | inl e ↦
      let kept = named_in d.langs targets in
      let fits : names_ok targets [] kept ≡ true =
        names_ok_complete targets [] kept
          (All-of_contains (λ l. contains l targets ≡ true) kept
            (λ x c. ground (arith, contains-named_in x d.langs targets)))
          (IsDistinct-named_in d.langs targets u) (Apart-nil kept) in
      ground (arith, fits)
]

chosen-retain : (targets : List Text) (d : DubSelection) → (retain targets d).chosen ≡ d.chosen
unfolding retain
chosen-retain targets d =
    if-either (λ (e : DubSelection). e.chosen ≡ d.chosen) d.chosen _ _ refl refl

module _ (p : Platform) where
  validate_languages_sound :
      (s : Session) → validate_languages p s ≡ none → All (IsTarget p) s.langs × IsDistinct s.langs
  unfolding validate_languages
  validate_languages_sound s h =
      let (targets, distinct, apart) = targets_ok_sound p [] s.langs (ground arith) in
      (targets, distinct)

  -- The parts of `validate` that read neither the targets nor the dubbed languages.
  same_checks :
      (s : Session) (langs : List Text) (d : DubSelection)
      → let t = record s { langs = langs; dub_langs = d } in
        (validate_identity p t ≡ validate_identity p s)
        × (validate_limits t ≡ validate_limits s)
        × (validate_modes p t ≡ validate_modes p s)
        × (validate_pair t ≡ validate_pair s)
  unfolding validate_identity validate_limits validate_modes validate_pair
  same_checks s langs d = (refl, refl, refl, refl)

  languages_of :
      (s : Session) (add remove : List Text)
      → All (IsTarget p) s.langs
      → All (IsTarget p) add
      → IsDistinct (merge_langs s.langs add remove)
      → is_empty (merge_langs s.langs add remove) ≡ false
      → validate_languages p (candidate s add remove) ≡ none
  unfolding validate_languages merge_langs
  languages_of s add remove t a u n =
      let merged = merge_langs s.langs add remove in
      rw (n, validate_languages)
        (targets_ok_complete p [] merged
          (All-merge_from (IsTarget p) remove [] (s.langs ++ add)
            (All-append (IsTarget p) s.langs add t a))
          u (Apart-nil merged))

  validate-candidate :
      (s : Session) (add remove : List Text)
      → validate p s ≡ none
      → All (IsTarget p) add
      → is_empty (merge_langs s.langs add remove) ≡ false
      → validate p (candidate s add remove) ≡ none
  unfolding validate validate_media
  validate-candidate s add remove v a n =
      let (identity, v₁) = first_of-none (validate_identity p s) _ v in
      let (limits, v₂) = first_of-none (validate_limits s) _ v₁ in
      let (source, v₃) = first_of-none (validate_source p s.source.url) _ v₂ in
      let (languages, v₄) = first_of-none (validate_languages p s) _ v₃ in
      let (modes, v₅) = first_of-none (validate_modes p s) _ v₄ in
      let (pair, dub) = first_of-none (validate_pair s) _ v₅ in
      let (targets, distinct) = validate_languages_sound s languages in
      let merged = merge_langs s.langs add remove in
      let d = retain merged s.dub_langs in
      let (i, l, m, q) = same_checks s merged d in
      let unique = (merge_langs-Merges s.langs add remove distinct).distinct in
      let n' : validate_languages p (candidate s add remove) ≡ none =
        languages_of s add remove targets a unique n in
      none-first_of (i ∙ identity) (
        none-first_of (l ∙ limits) (
          none-first_of source (
            none-first_of n' (
              none-first_of (m ∙ modes) (
                none-first_of (q ∙ pair) (
                  ground (
                    arith,
                    chosen-retain merged s.dub_langs,
                    validate-retain merged s.dub_langs unique,
                  )))))))

  -- A change of targets that leaves one is accepted where every added tag is written as it parses and the
  -- caller's check passes: the store then holds the session with the merged targets, the dubbed languages
  -- among them, a new revision, and the state of a session that starts.
  pub update_langs-accepted :
      (st : Store) (slug : Text) (add remove : List Text) (check : Session → Option Failure)
      (s : Session)
      → Inv p st
      → find slug st.sessions ≡ some s
      → All (IsTarget p) add
      → is_empty (merge_langs s.langs add remove) ≡ false
      → check (candidate s add remove) ≡ none
      → let written = stamped (candidate s add remove) (next_revision st) in
        update_langs p st slug add remove check ≡ ok (updated_store st slug written, written)
  unfolding update_langs
  update_langs-accepted st slug add remove check s i f a n k =
      let entry = All-find (IsEntry p st.next_rev) slug s st.sessions i.entries f in
      let v = validate-candidate s add remove entry.valid a n in rw (f, n, v, k, update_langs) refl
