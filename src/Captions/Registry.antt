-- ===== src/Captions/Registry.antt =====
-- internal/media/egress/vtt/registry.go: the live writers by session and language. A writer is shared by
-- the lane that holds it and the registry: the heap keeps every writer's cues, and a handle is its place.
use prukka.Base.{
  ℕ, zero, suc, ◌≡◌, ◌≢◌, refl, sym, ap, ◌∙◌, Bool, true, false, ◌&&◌, List, [], ◌∷◌, ◌++◌, Option,
  none, some, if◌then◌else◌, Bool-cases, length, get_elem?, set, Text, text_eq, text_eq_refl,
  text_eq_sound, inl, inr, arith, ◌⊎◌, Option-cases, get_elem?-set_self,
}
use mathlib.Core.Option
use prukka.Captions.{Cue, TranslatedSegment, append, document}

pub record PairId : Type 0 where
  pub slug : Text
  pub lang : Text

pub record Entry : Type 0 where
  pub key : PairId
  pub handle : ℕ

pub record Registry : Type 0 where
  pub heap : List (List Cue)
  pub writers : List Entry

abbrev pub new_registry : Registry
new_registry = record { heap = []; writers = [] }

abbrev pub same_pair : PairId → PairId → Bool
same_pair a b = text_eq a.slug b.slug && text_eq a.lang b.lang

unfoldable pub writer_of : List Entry → PairId → Option ℕ
writer_of [] key = none
writer_of (e ∷ es) key = if same_pair e.key key then some e.handle else writer_of es key

-- A write of the map: the key's entry is replaced, or a new one is added.
unfoldable pub put_writer : List Entry → Entry → List Entry
put_writer [] new = new ∷ []
put_writer (e ∷ es) new =
    let rest = put_writer es new in if same_pair e.key new.key then new ∷ es else e ∷ rest

-- Registry.Create; the handle is the new writer.
unfoldable pub create : Registry → PairId → Registry × ℕ
unfolding put_writer
create r key =
    let handle = length r.heap in
    (
      record {
        heap = r.heap ++ ([] ∷ []);
        writers = put_writer r.writers (record { key = key; handle = handle });
      },
      handle,
    )

unfoldable pub rendered : List (List Cue) → Option ℕ → Option Text
unfolding document
rendered heap none = none
rendered heap (some handle) = Option.map document (get_elem? heap handle)

unfoldable pub document_of : Registry → PairId → Option Text
unfolding writer_of rendered
document_of r key = rendered r.heap (writer_of r.writers key)

unfoldable pub drop_all : List Entry → Text → List Entry
drop_all [] slug = []
drop_all (e ∷ es) slug =
    let rest = drop_all es slug in if text_eq e.key.slug slug then rest else e ∷ rest

-- Registry.Drop; the lanes keep their writers.
unfoldable pub drop_session : Registry → Text → Registry
unfolding drop_all
drop_session r slug = record r { writers = drop_all r.writers slug }

module _ (share : ℕ → ℕ → ℕ → ℕ) (is_space : ℕ → Bool) where
  unfoldable pub append_to : Registry → ℕ → TranslatedSegment → Option (List Cue) → Registry
  append_to r handle seg none = r
  append_to r handle seg (some cues) = record r {
    heap = set r.heap handle (append share is_space cues seg);
  }

  -- Writer.Append through a handle that a lane holds.
  unfoldable pub append_at : Registry → ℕ → TranslatedSegment → Registry
  unfolding append_to
  append_at r handle seg = append_to r handle seg (get_elem? r.heap handle)

other_slug : (l s k : Text) → text_eq l s ≡ true → text_eq k s ≡ false → text_eq l k ≡ false
other_slug l s k e n = elim (Bool-cases (text_eq l k)) [
  | inl h ↦ cc (e, text_eq_sound l k h, n)
  | inr h ↦ h
]

same_pair_refl : (a : PairId) → same_pair a a ≡ true
same_pair_refl a = ground (arith, text_eq_refl a.slug, text_eq_refl a.lang)

writer_of-drop_all_same :
    (es : List Entry) (key : PairId) → writer_of (drop_all es key.slug) key ≡ none
unfolding writer_of drop_all
writer_of-drop_all_same [] key = refl
writer_of-drop_all_same (e ∷ es) key = elim (Bool-cases (text_eq e.key.slug key.slug)) [
  | inl h ↦ rw h (writer_of-drop_all_same es key)
  | inr h ↦ rw (h, h) (writer_of-drop_all_same es key)
]

writer_of-drop_all_other :
    (es : List Entry) (slug : Text) (key : PairId)
    → text_eq key.slug slug ≡ false
    → writer_of (drop_all es slug) key ≡ writer_of es key
unfolding writer_of drop_all
writer_of-drop_all_other [] slug key h = refl
writer_of-drop_all_other (e ∷ es) slug key h = elim (Bool-cases (text_eq e.key.slug slug)) [
  | inl g ↦ rw (g, other g) (writer_of-drop_all_other es slug key h)
  | inr g ↦ rw g (
      ap (λ rest. if same_pair e.key key then some e.handle else rest)
        (writer_of-drop_all_other es slug key h))
]
  where
    other : text_eq e.key.slug slug ≡ true → text_eq e.key.slug key.slug ≡ false
    other g = other_slug e.key.slug slug key.slug g h

writer_of-put_writer :
    (es : List Entry) (new : Entry) → writer_of (put_writer es new) new.key ≡ some new.handle
unfolding writer_of put_writer
writer_of-put_writer [] new = rw (same_pair_refl new.key) refl
writer_of-put_writer (e ∷ es) new = elim (Bool-cases (same_pair e.key new.key)) [
  | inl h ↦ rw (h, same_pair_refl new.key) refl
  | inr h ↦ rw (h, h) (writer_of-put_writer es new)
]

module _ {A : Type 0} where
  get_elem?-append_last : (xs : List A) (x : A) → get_elem? (xs ++ (x ∷ [])) (length xs) ≡ some x
  get_elem?-append_last [] x = refl
  get_elem?-append_last (y ∷ xs) x = get_elem?-append_last xs x

  get_elem?-set_other :
      (xs : List A) (i j : ℕ) (v : A) → i ≢ j → get_elem? (set xs i v) j ≡ get_elem? xs j
  get_elem?-set_other [] i j v n = refl
  get_elem?-set_other (x ∷ xs) zero zero v n = absurd (n refl)
  get_elem?-set_other (x ∷ xs) zero (suc j) v n = refl
  get_elem?-set_other (x ∷ xs) (suc i) zero v n = refl
  get_elem?-set_other (x ∷ xs) (suc i) (suc j) v n =
      get_elem?-set_other xs i j v (λ e. n (ap suc e))

document_of-shows :
    (s : Registry) (key : PairId) (h : ℕ) (cues : List Cue)
    → writer_of s.writers key ≡ some h
    → get_elem? s.heap h ≡ some cues
    → document_of s key ≡ some (document cues)
unfolding document_of
document_of-shows s key h cues e g = rw (e, rendered, g) refl

module _ (share : ℕ → ℕ → ℕ → ℕ) (is_space : ℕ → Bool) (s : Registry) where
  append_at-writers :
      (old : ℕ) (seg : TranslatedSegment) → (append_at share is_space s old seg).writers ≡ s.writers
  unfolding append_at
  append_at-writers old seg = elim (Option-cases (get_elem? s.heap old)) [
    | inl e ↦ rw (e, append_to) refl
    | inr (cues, e) ↦ rw (e, append_to) refl
  ]

  append_at-other :
      (old : ℕ) (seg : TranslatedSegment) (h : ℕ)
      → old ≢ h
      → get_elem? (append_at share is_space s old seg).heap h ≡ get_elem? s.heap h
  unfolding append_at
  append_at-other old seg h n = elim (Option-cases (get_elem? s.heap old)) [
    | inl e ↦ rw (e, append_to) refl
    | inr (cues, e) ↦
        rw (e, append_to) (get_elem?-set_other s.heap old h (append share is_space cues seg) n)
  ]

  append_at-same :
      (h : ℕ) (seg : TranslatedSegment) (cues : List Cue)
      → get_elem? s.heap h ≡ some cues
      → get_elem? (append_at share is_space s h seg).heap h ≡ some (append share is_space cues seg)
  unfolding append_at
  append_at-same h seg cues e =
      rw (e, append_to) (get_elem?-set_self s.heap h (append share is_space cues seg) cues e)

module _ (share : ℕ → ℕ → ℕ → ℕ) (is_space : ℕ → Bool) (r : Registry) (key : PairId) where
  abbrev fresh : Registry
  fresh = (create r key).0

  abbrev new_handle : ℕ
  new_handle = (create r key).1

  handle-length : new_handle ≡ length r.heap
  handle-length = unfold create in refl

  fresh-writer : writer_of fresh.writers key ≡ some (length r.heap)
  unfolding create
  fresh-writer = writer_of-put_writer r.writers (record { key = key; handle = length r.heap })

  fresh-heap : get_elem? fresh.heap (length r.heap) ≡ some []
  unfolding create
  fresh-heap = get_elem?-append_last r.heap []

  -- After a restart the pair's document is the new writer's: it is empty and stays so, whatever is appended
  -- through another handle, such as the one the previous lane still holds, and it shows what is appended through the new handle.
  pub create-isolates :
      (old : ℕ) (stale_seg seg : TranslatedSegment)
      → old ≢ new_handle
      → (document_of (append_at share is_space fresh old stale_seg) key ≡ some (document []))
        × (document_of
              (append_at share is_space
                (append_at share is_space fresh old stale_seg)
                new_handle
                seg)
              key
            ≡ some (document (append share is_space [] seg)))
  create-isolates old stale_seg seg n =
      let stale = append_at share is_space fresh old stale_seg in
      let writer : writer_of stale.writers key ≡ some (length r.heap) =
        ap (λ es. writer_of es key) (append_at-writers share is_space fresh old stale_seg)
        ∙ fresh-writer in
      let still : get_elem? stale.heap (length r.heap) ≡ some [] =
        append_at-other share is_space fresh old stale_seg (length r.heap)
          (λ e. n (e ∙ sym handle-length))
        ∙ fresh-heap in
      (
        document_of-shows stale key (length r.heap) [] writer still,
        document_of-shows (append_at share is_space stale new_handle seg) key (length r.heap)
            (append share is_space [] seg)
            (ap (λ es. writer_of es key) (append_at-writers share is_space stale new_handle seg)
              ∙ writer)
            (ap (λ h. get_elem? (append_at share is_space stale h seg).heap (length r.heap))
                handle-length
              ∙ append_at-same share is_space stale (length r.heap) seg [] still),
      )

-- Dropping a session leaves none of its documents, and every document of the other sessions as it was.
pub drop_session-drops :
    (r : Registry) (slug : Text) (key : PairId)
    → ((text_eq key.slug slug ≡ true) × (document_of (drop_session r slug) key ≡ none))
      ⊎ ((text_eq key.slug slug ≡ false)
          × (document_of (drop_session r slug) key ≡ document_of r key))
unfolding document_of drop_session
drop_session-drops r slug key = elim (Bool-cases (text_eq key.slug slug)) [
  | inl h ↦
      let none_left : writer_of (drop_all r.writers slug) key ≡ none =
        ap (λ s. writer_of (drop_all r.writers s) key) (sym (text_eq_sound key.slug slug h))
        ∙ writer_of-drop_all_same r.writers key in
      inl (h, rw (none_left, rendered) refl)
  | inr h ↦ inr (h, ap (rendered r.heap) (writer_of-drop_all_other r.writers slug key h))
]
