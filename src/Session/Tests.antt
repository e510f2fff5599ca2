-- ===== src/Session/Tests.antt =====
-- The options and failures of internal/core/session at concrete values.
use prukka.Base.{◌≤◌, ◌≡◌, refl, false, none, some, [], ◌∷◌, ◌++◌, replicate, inl, inr, codes, Text}
use prukka.Base.Int.{pos}
use prukka.Base.Unicode.{ascii}
use prukka.Base.Result.{ok}
use prukka.Lang.{parse, registry}
use prukka.Session.Model.{Platform, unset, Session, dub_only, invalid_source}
use prukka.Session.Source.{validate_source}
use mathlib.Core.List.{List, Permᴰ}
use prukka.Session.Flags.{
  apply_flags, flags_wire, parse_subs, slug_ok, flag_subs, flag_source, flag_pair, flag_dub_langs,
}
use prukka.Session.Flags.Entries.{with_options, blank, IsParsed}
use prukka.Session.Flags.RoundTrip.{apply_flags-flags_wire}
use prukka.Base.Utf8.{bytes}
use prukka.Session.Status.{LaneError, sanitize_runtime_error, truncate_utf8, printable_runtime_rune}
use prukka.Session.Status.Bounds.{bytes-sanitize_runtime_error}

abbrev offline : Platform
offline = record {
  unicode = ascii;
  parse_query = λ q. some [];
  parse_url = λ u. none;
  bed_figure = λ t. false;
}

abbrev film : Session
film = record {
  slug = codes "film";
  profile = codes "broadcast";
  pair = codes "other";
  source_lang = codes "en";
  subs = codes "burn";
  dub = [];
  bed = [];
  source = record { url = codes "file:///film.mkv?loop=true"; video_dir = []; delay = pos 0 };
  runtime = record { state = unset; error = []; gen = 0 };
  langs = codes "it" ∷ codes "pt-BR" ∷ [];
  dub_langs = dub_only (codes "it" ∷ codes "pt-BR" ∷ []);
  delay = pos 0;
  revision = 0;
}

film_wire :
    flags_wire film
    ≡ (codes "subs", codes "burn")
      ∷ (codes "source", codes "en")
      ∷ (codes "pair", codes "other")
      ∷ (codes "dub_langs", codes "it,pt-BR")
      ∷ []
unfolding flags_wire flag_subs flag_source flag_pair flag_dub_langs
film_wire = refl

film-IsParsed : IsParsed offline film
unfolding parse registry parse_subs slug_ok
film-IsParsed = record {
  subs = inr (refl, refl);
  dub = inl refl;
  bed = inl refl;
  source_lang = inr (refl, refl);
  pair = inr (refl, refl);
  dub_langs = inr (refl, ((refl, refl), ((refl, refl), tt)), (refl, (refl, tt)));
}

-- The map of `film`, visited in another order.
abbrev visited : List (Text × Text)
visited =
    (codes "source", codes "en")
    ∷ (codes "subs", codes "burn")
    ∷ (codes "pair", codes "other")
    ∷ (codes "dub_langs", codes "it,pt-BR")
    ∷ []

visited-Permᴰ : Permᴰ visited (flags_wire film)
unfolding flags_wire flag_subs flag_source flag_pair flag_dub_langs
visited-Permᴰ = Permᴰ.swap refl refl

apply_flags-flags_wire_example :
    apply_flags offline (blank film) visited ≡ ok (with_options film film)
apply_flags-flags_wire_example =
    apply_flags-flags_wire offline film film visited film-IsParsed visited-Permᴰ

-- A long failure whose path is withheld.
abbrev wordy : LaneError
wordy = record {
  message = codes "open /srv/x: " ++ replicate 600 b'a';
  spans =
      record { value = codes "/srv/x"; quoted = codes "\"/srv/x\""; label = codes "[local-path]" }
      ∷ [];
}

bytes-sanitize_runtime_error_example : bytes (sanitize_runtime_error ascii (some wordy)) ≤ 512
bytes-sanitize_runtime_error_example = bytes-sanitize_runtime_error ascii (some wordy)

withheld :
    sanitize_runtime_error ascii
      (some (record wordy { message = codes "open \"/srv/x\":\tno /srv/x" }))
    ≡ codes "open \"[local-path]\": no [local-path]"
unfolding sanitize_runtime_error truncate_utf8 printable_runtime_rune
withheld = refl

refuses_camera_alone : validate_source offline (codes "device://av/cam") ≡ some invalid_source
unfolding validate_source
refuses_camera_alone = refl
