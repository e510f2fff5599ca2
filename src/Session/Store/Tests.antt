-- ===== src/Session/Store/Tests.antt =====
-- Runs of the registry of internal/core/session/store.go, and its theorems at a concrete store.
use prukka.Base.{◌≡◌, refl, true, false, none, some, List, [], ◌∷◌, arith, Text, codes}
use prukka.Base.Int.{pos}
use prukka.Base.Unicode.{ascii}
use prukka.Base.Result.{ok}
use prukka.Lang.{registry, parse}
use prukka.Session.Model.{Platform, unset, running, finished, failed, Session, dub_only}
use prukka.Session.Source.{validate_source}
use prukka.Session.Flags.{slug_ok, parse_subs, parse_dub, validate_dub}
use prukka.Session.Validate.{
  validate, validate_identity, validate_limits, validate_languages, target_ok, validate_media,
  validate_modes, validate_pair,
}
use prukka.Session.Validate.Languages.{IsTarget}
use prukka.Session.Status.{valid_runtime_transition}
use prukka.Session.Store.{
  Store, new_store, update_langs, set_runtime, delete, merge_langs, next_revision, stamped,
}
use prukka.Session.Store.Langs.{Merges, merge_langs-Merges}
use prukka.Session.Store.Outcomes.{candidate, updated_store}
use prukka.Session.Store.Invariant.{Inv}
use prukka.Session.Store.Runs.{Op, creates, binds, deletes, subscribes, receives, run, run-Inv}
use prukka.Session.Store.Stale.{Refused}
use prukka.Session.Store.Refusals.{update-refuses_old, final-refuses_more}
use prukka.Session.Store.Updates.{update_langs-accepted}
use prukka.Session.Store.Deletes.{Removes, delete-Removes}

-- No query is parsed, and every URL has a host.
abbrev host : Platform
host = record {
  unicode = ascii;
  parse_query = λ q. some [];
  parse_url = λ u. some (record { scheme = codes "srt"; hostname = u; escaped_path = [] });
  bed_figure = λ t. false;
}

abbrev caller : Text → Text → Session
caller slug pair = record {
  slug = slug;
  profile = codes "call";
  pair = pair;
  source_lang = [];
  subs = codes "vtt";
  dub = [];
  bed = [];
  source = record { url = codes "device://audio/mic"; video_dir = []; delay = pos 0 };
  runtime = record { state = unset; error = []; gen = 0 };
  langs = codes "it" ∷ [];
  dub_langs = dub_only (codes "it" ∷ []);
  delay = pos 0;
  revision = 0;
}

abbrev ann : Session
ann = caller (codes "ann") (codes "bob")

abbrev bob : Session
bob = caller (codes "bob") (codes "ann")

-- The two halves of a call, then a lane that binds the first.
abbrev call : List Op
call =
    subscribes
    ∷ creates ann
    ∷ creates bob
    ∷ binds (record { slug = codes "ann"; revision = 1; gen = 1 })
    ∷ []

empty-Inv : Inv host (new_store 2)
unfolding new_store
empty-Inv = record { distinct = tt; entries = tt; capped = λ c. omega arith; buffers = tt }

run-Inv_example : Inv host (run host call (new_store 2))
unfolding new_store
run-Inv_example = run-Inv host call (new_store 2) empty-Inv (omega arith)

-- The call once it runs: the first half is bound by its first lane and has one subscriber waiting.
abbrev on_air : Store
on_air = record {
  sessions =
      (
        codes "ann",
        record ann { revision = 1; runtime = record { state = running; error = []; gen = 1 } },
      )
      ∷ (codes "bob", record bob { revision = 2 })
      ∷ [];
  subs = record { id = 0; pending = [] } ∷ [];
  next_rev = 2;
  next_sub = 1;
  max = 2;
}

abbrev ann_on_air : Session
ann_on_air = record ann { revision = 1; runtime = record { state = running; error = []; gen = 1 } }

valid_caller :
    (validate host ann_on_air ≡ none) × (validate host (record bob { revision = 2 }) ≡ none)
unfolding validate validate_identity slug_ok validate_limits validate_source validate_languages
    target_ok parse registry validate_media validate_modes parse_subs parse_dub validate_pair
    validate_dub
valid_caller = (refl, refl)

on_air-Inv : Inv host on_air
on_air-Inv = record {
  distinct = (refl, (refl, tt));
  entries = (
    record { slug = refl; valid = valid_caller.0; stamped = omega arith },
    (record { slug = refl; valid = valid_caller.1; stamped = omega arith }, tt),
  );
  capped = λ c. omega arith;
  buffers = (omega arith, tt);
}

abbrev english : List Text
english = codes "en" ∷ []

english-IsTarget : IsTarget host (codes "en")
unfolding target_ok parse registry
english-IsTarget = refl

abbrev updated_ann : Session
updated_ann = stamped (candidate ann_on_air english []) (next_revision on_air)

one_left : merge_langs (codes "it" ∷ []) english [] ≡ codes "it" ∷ codes "en" ∷ []
unfolding merge_langs
one_left = refl

update_langs-accepted_example :
    update_langs host on_air (codes "ann") english [] (λ s. none)
    ≡ ok (updated_store on_air (codes "ann") updated_ann, updated_ann)
unfolding merge_langs
update_langs-accepted_example =
    update_langs-accepted host on_air (codes "ann") english [] (λ s. none) ann_on_air on_air-Inv
      refl (english-IsTarget, tt) refl refl

-- The first half's lane of revision 1 fails to finish after an update and a deletion.
update-refuses_old_example :
    Refused host
      (run host
        (deletes (codes "bob") ∷ creates bob ∷ [])
        (updated_store on_air (codes "ann") updated_ann))
      (record { slug = codes "ann"; revision = 1; gen = 1 })
      finished
      none
update-refuses_old_example =
    update-refuses_old host (deletes (codes "bob") ∷ creates bob ∷ []) on_air
      (updated_store on_air (codes "ann") updated_ann)
      (record { slug = codes "ann"; revision = 1; gen = 1 }) english [] (λ s. none) updated_ann
      finished none on_air-Inv (omega arith) update_langs-accepted_example (omega arith)

sets_failed :
    (set_runtime host on_air (record { slug = codes "ann"; revision = 1; gen = 1 }) failed none).1
    ≡ true
unfolding set_runtime valid_runtime_transition
sets_failed = refl

final-refuses_more_example :
    Refused host
      (run host
        (receives 0 ∷ [])
        (set_runtime host on_air
          (record { slug = codes "ann"; revision = 1; gen = 1 })
          failed
          none).0)
      (record { slug = codes "ann"; revision = 1; gen = 1 })
      running
      none
final-refuses_more_example =
    final-refuses_more host (receives 0 ∷ []) on_air
      (record { slug = codes "ann"; revision = 1; gen = 1 }) failed running none none on_air-Inv
      (omega arith) refl sets_failed

merge_langs-Merges_example :
    Merges
      (codes "it" ∷ codes "fr" ∷ [])
      english
      (codes "it" ∷ [])
      (merge_langs (codes "it" ∷ codes "fr" ∷ []) english (codes "it" ∷ []))
merge_langs-Merges_example =
    merge_langs-Merges (codes "it" ∷ codes "fr" ∷ []) english (codes "it" ∷ []) (refl, (refl, tt))

-- The two halves go together.
abbrev after_call : Store
after_call = record on_air { sessions = [] }

delete_call :
    delete (record on_air { subs = [] }) (codes "ann") ≡ ok (record after_call { subs = [] })
unfolding delete
delete_call = refl

delete-Removes_example :
    Removes (record on_air { subs = [] }) (codes "ann") (record after_call { subs = [] })
delete-Removes_example =
    delete-Removes (record on_air { subs = [] }) (record after_call { subs = [] }) (codes "ann")
      delete_call
