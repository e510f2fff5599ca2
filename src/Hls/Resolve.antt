-- ===== src/Hls/Resolve.antt =====
-- internal/media/egress/hls/resolve.go: which file a request names. A path is the list of its parts, which
-- filepath.Join joins; fmt.Sscanf is the parameter `scan`, and langUnknown is `none`.
use prukka.Base.{
  none-some, some-inj, ℕ, ◌≡◌, sym, ap, ◌∙◌, ◌⊎◌, true, Option, none, some, List, [], ◌∷◌, ◌++◌,
  if◌then◌else◌, Bool-cases, Option-cases, inl, inr, arith, Text, codes, text_eq, text_eq_sound,
  text_eq_refl, split_at, contains,
}
use prukka.Base.Int.{ℤ, pos, negsuc}
use prukka.Base.Decimal.{padded}

unfoldable pub video_dir : Text
video_dir = codes "video"

unfoldable pub audio_dir : Text
audio_dir = codes "audio"

unfoldable pub subs_dir : Text
subs_dir = codes "subs"

unfoldable pub playlist_name : Text
playlist_name = codes "index.m3u8"

-- segTS and segVTT, as what follows the number.
unfoldable pub ts_suffix : Text
ts_suffix = codes ".ts"

unfoldable pub vtt_suffix : Text
vtt_suffix = codes ".vtt"

unfoldable pub segment_name : Text → ℕ → Text
unfolding padded
segment_name suffix n = codes "seg" ++ padded 5 n ++ suffix

pub record Tree : Type 0 where
  pub dir : Text
  pub langs : List Text
  pub subtitle_langs : List Text

-- Tree.owned and Tree.ownedSubtitle, on the tree's list.
unfoldable pub owned_in : List Text → Text → Option Text
owned_in [] tag = none
owned_in (lang ∷ langs) tag = if text_eq lang tag then some lang else owned_in langs tag

unfoldable pub numbered : Text → Text → Option ℤ → Option Text
numbered suffix file none = none
numbered suffix file (some (negsuc n)) = none
numbered suffix file (some (pos n)) =
    if text_eq (segment_name suffix n) file then some (segment_name suffix n) else none

unfoldable pub rebuild : List Text → Option Text → Option (List Text)
rebuild base none = none
rebuild base (some name) = some (base ++ (name ∷ []))

module _ (scan : Text → Text → Option ℤ) where
  -- A segment name is rendered again from its number.
  unfoldable pub canonical : Text → Text → Option Text
  unfolding numbered
  canonical suffix file = numbered suffix file (scan suffix file)

  unfoldable pub rebuilt_name : Text → Text → Option Text
  unfolding canonical
  rebuilt_name file suffix =
      if text_eq file playlist_name then some playlist_name else canonical suffix file

  -- The base of a rendition; the video has no language.
  unfoldable pub rebuild_lang : Text → Text → Option Text → Text → Text → Option (List Text)
  unfolding rebuild rebuilt_name
  rebuild_lang dir kind none file suffix = none
  rebuild_lang dir kind (some lang) file suffix =
      rebuild (dir ∷ kind ∷ lang ∷ []) (rebuilt_name file suffix)

  unfoldable pub resolve : Tree → List Text → Option (List Text)
  unfolding rebuild rebuilt_name rebuild_lang owned_in
  resolve t [] = none
  resolve t (kind ∷ []) = none
  resolve t (kind ∷ file ∷ []) =
      if text_eq kind video_dir
      then rebuild (t.dir ∷ video_dir ∷ []) (rebuilt_name file ts_suffix)
      else none
  resolve t (kind ∷ lang ∷ file ∷ []) =
      if text_eq kind audio_dir
      then rebuild_lang t.dir audio_dir (owned_in t.langs lang) file ts_suffix
      else if text_eq kind subs_dir
      then rebuild_lang t.dir subs_dir (owned_in t.subtitle_langs lang) file vtt_suffix
      else none
  resolve t (kind ∷ lang ∷ file ∷ more ∷ rest) = none

  -- Store.Open on a session's tree, up to the opening of the file.
  unfoldable pub open_path : Tree → Text → Option (List Text)
  unfolding resolve
  open_path t rest = resolve t (split_at b'/' rest)

-- The names that a rendition's directory serves.
abbrev pub IsName : Text → Text → Type 0
IsName suffix name = (name ≡ playlist_name) ⊎ ((n : ℕ) × (name ≡ segment_name suffix n))

-- The paths that a tree serves.
pub data IsServed (t : Tree) (path : List Text) : Type 0 where
  video :
      (name : Text) → IsName ts_suffix name → path ≡ t.dir ∷ video_dir ∷ name ∷ [] → IsServed t path
  audio :
      (lang name : Text)
      → contains lang t.langs ≡ true
      → IsName ts_suffix name
      → path ≡ t.dir ∷ audio_dir ∷ lang ∷ name ∷ []
      → IsServed t path
  subtitles :
      (lang name : Text)
      → contains lang t.subtitle_langs ≡ true
      → IsName vtt_suffix name
      → path ≡ t.dir ∷ subs_dir ∷ lang ∷ name ∷ []
      → IsServed t path

owned_in-contains :
    (langs : List Text) (tag lang : Text)
    → owned_in langs tag ≡ some lang
    → (lang ≡ tag) × (contains lang langs ≡ true)
unfolding owned_in
owned_in-contains [] tag lang e = cc
owned_in-contains (l ∷ langs) tag lang e = elim (Bool-cases (text_eq l tag)) [
  | inl q ↦
      let same : l ≡ lang = some-inj (rw q at e) in (sym same ∙ text_eq_sound l tag q, found l same)
  | inr q ↦ let (a, b) = owned_in-contains langs tag lang (rw q at e) in (a, ground (arith, b))
]
  where
    found : (l : Text) → l ≡ lang → contains lang (l ∷ langs) ≡ true
    found l same = ground (arith, text_eq_refl lang, same)

numbered-IsName :
    (suffix file name : Text) (n : Option ℤ)
    → numbered suffix file n ≡ some name
    → (name ≡ file) × IsName suffix name
unfolding numbered
numbered-IsName suffix file name none e = cc
numbered-IsName suffix file name (some (negsuc n)) e = cc
numbered-IsName suffix file name (some (pos n)) e =
    elim (Bool-cases (text_eq (segment_name suffix n) file)) [
      | inl q ↦
          let same : segment_name suffix n ≡ name = some-inj (rw q at e) in
          (sym same ∙ text_eq_sound (segment_name suffix n) file q, inr (n, sym same))
      | inr q ↦ absurd (none-some (rw q at e))
    ]

module _ (scan : Text → Text → Option ℤ) where
  rebuilt_name-IsName :
      (file suffix name : Text)
      → rebuilt_name scan file suffix ≡ some name
      → (name ≡ file) × IsName suffix name
  unfolding rebuilt_name canonical
  rebuilt_name-IsName file suffix name e = elim (Bool-cases (text_eq file playlist_name)) [
    | inl q ↦
        let same : playlist_name ≡ name = some-inj (rw q at e) in
        (sym same ∙ sym (text_eq_sound file playlist_name q), inl (sym same))
    | inr q ↦ numbered-IsName suffix file name (scan suffix file) (rw q at e)
  ]

  -- What is rebuilt is the base with the name that was asked for.
  rebuild-IsName :
      (base path : List Text) (file suffix : Text)
      → rebuild base (rebuilt_name scan file suffix) ≡ some path
      → (name : Text) × (name ≡ file) × IsName suffix name × (path ≡ base ++ (name ∷ []))
  unfolding rebuild
  rebuild-IsName base path file suffix e = elim (Option-cases (rebuilt_name scan file suffix)) [
    | inl q ↦ absurd (none-some (rw (q, rebuild) at e))
    | inr (name, q) ↦
        let (a, b) = rebuilt_name-IsName file suffix name q in
        (name, a, b, sym (some-inj (rw (q, rebuild) at e)))
  ]

  rebuild_lang-IsName :
      (dir kind file suffix tag : Text) (langs path : List Text)
      → rebuild_lang scan dir kind (owned_in langs tag) file suffix ≡ some path
      → (lang : Text) × (name : Text) × (lang ≡ tag)
        × (contains lang langs ≡ true)
        × (name ≡ file)
        × IsName suffix name
        × (path ≡ dir ∷ kind ∷ lang ∷ name ∷ [])
  unfolding rebuild_lang
  rebuild_lang-IsName dir kind file suffix tag langs path e =
      elim (Option-cases (owned_in langs tag)) [
        | inl q ↦ absurd (none-some (rw (q, rebuild_lang) at e))
        | inr (lang, q) ↦
            let (same, carried) = owned_in-contains langs tag lang q in
            let (name, a, b, c) =
              rebuild-IsName (dir ∷ kind ∷ lang ∷ []) path file suffix
                (rw (q, rebuild_lang) at e) in
            (lang, name, same, carried, a, b, c)
      ]

  asked :
      (dir own kind lang file l name : Text) (path : List Text)
      → kind ≡ own
      → l ≡ lang
      → name ≡ file
      → path ≡ dir ∷ own ∷ l ∷ name ∷ []
      → path ≡ dir ∷ kind ∷ lang ∷ file ∷ []
  asked dir own kind lang file l name path a b c e = cc (a, b, c, e)

  resolve-IsServed :
      (t : Tree) (parts path : List Text)
      → resolve scan t parts ≡ some path
      → (path ≡ t.dir ∷ parts) × IsServed t path
  unfolding resolve
  resolve-IsServed t [] path e = cc
  resolve-IsServed t (kind ∷ []) path e = cc
  resolve-IsServed t (kind ∷ file ∷ []) path e = elim (Bool-cases (text_eq kind video_dir)) [
    | inl q ↦
        let (name, a, b, c) =
          rebuild-IsName (t.dir ∷ video_dir ∷ []) path file ts_suffix (rw q at e) in
        (
          c
              ∙ ap (λ n. t.dir ∷ video_dir ∷ n ∷ []) a
              ∙ ap (λ k. t.dir ∷ k ∷ file ∷ []) (sym (text_eq_sound kind video_dir q)),
          video name b c,
        )
    | inr q ↦ absurd (none-some (rw q at e))
  ]
  resolve-IsServed t (kind ∷ lang ∷ file ∷ []) path e = elim (Bool-cases (text_eq kind audio_dir)) [
    | inl q ↦
        let (l, name, same, carried, a, b, c) =
          rebuild_lang-IsName t.dir audio_dir file ts_suffix lang t.langs path (rw q at e) in
        (
          asked t.dir audio_dir kind lang file l name path (text_eq_sound kind audio_dir q) same a
              c,
          audio l name carried b c,
        )
    | inr n ↦ elim (Bool-cases (text_eq kind subs_dir)) [
      | inl q ↦
          let (l, name, same, carried, a, b, c) =
            rebuild_lang-IsName t.dir subs_dir file vtt_suffix lang t.subtitle_langs path
              (rw (n, q) at e) in
          (
            asked t.dir subs_dir kind lang file l name path (text_eq_sound kind subs_dir q) same a
                c,
            subtitles l name carried b c,
          )
      | inr q ↦ absurd (none-some (rw (n, q) at e))
    ]
  ]
  resolve-IsServed t (kind ∷ lang ∷ file ∷ more ∷ rest) path e = cc

  -- Whatever a request asks for, a path that is opened is the request's own path under the tree, and it is
  -- one that the tree serves: a playlist or a canonical segment of the video, or of a language that the
  -- session carries. No other file can be named.
  pub open_path-IsServed :
      (t : Tree) (rest : Text) (path : List Text)
      → open_path scan t rest ≡ some path
      → (path ≡ t.dir ∷ split_at b'/' rest) × IsServed t path
  unfolding open_path
  open_path-IsServed t rest path e = resolve-IsServed t (split_at b'/' rest) path e
