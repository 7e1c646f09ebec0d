-- ===== src/Anki/Planner/Tests.antt =====
-- Runs of the planner on small requests, and the theorems at concrete inputs.
use imoogi_emacs.Prelude.{
  ℕ, Text, text, equal, contains, to_lower, text_leb, ◌≡◌, refl, true, Option, none, some, List, [],
  ◌∷◌, map,
}
use imoogi_emacs.Prelude.{not, ◌&&◌, if◌then◌else◌, All, ap}
use imoogi_emacs.Prelude.Sort.{sort}
use imoogi_emacs.Prelude.Dict
use imoogi_emacs.Anki.Protocol.{Entry, Request, CensusEntry, added, skipped}
use imoogi_emacs.Anki.Registry
use imoogi_emacs.Anki.Registry.{lookup, remove, all}
use imoogi_emacs.Anki.Registry.Laws.{IsMap}
use imoogi_emacs.Anki.Hashing.{hash, canonical}
use imoogi_emacs.Anki.CardOptions.{validate_card_options, read_direction, read_boolean, basic_name}
use imoogi_emacs.Anki.Client.{Peer, RawNoteInfo, notes_info, delete_notes, read_infos}
use imoogi_emacs.Anki.Planner.Runner
use imoogi_emacs.Anki.Planner.Runner.{
  Env, Upload, rendered, reply, ok, ask, lift, ◌>>=◌, attempt, pure, put_entry, model_field_names,
  deck_names, create_deck, add_note, store_media_file,
}
use imoogi_emacs.Anki.Planner.Steps.{Steps}
use imoogi_emacs.Anki.Planner.Log.{Adds, Deletes}
use imoogi_emacs.Anki.Planner.Fields.{resolve_fields}
use imoogi_emacs.Anki.Planner.Branches.{ensure_deck, upload_one, upload_media, add_new_note}
use imoogi_emacs.Anki.Planner.Branches.Once.{ensure_deck_again, upload_media_again}
use imoogi_emacs.Anki.Planner.Entries.{prepare, dispatch, process_entry, process_entries}
use imoogi_emacs.Anki.Planner.Entries.Walks.{process_entry-Steps}
use imoogi_emacs.Anki.Planner.Entries.Records.{is_written}
use imoogi_emacs.Anki.Planner.Entries.Converges.{identified, process_entry_converges}
use imoogi_emacs.Anki.Planner.Entries.Loop.{IsClaimedOnce, process_entries-IsClaimedOnce}
use imoogi_emacs.Anki.Planner.Entries.Replies.{process_entries-keys}
use imoogi_emacs.Anki.Planner.Orphans.{
  has, in_census, reconcile_source_paths, compute_candidates, confirm_and_delete, confirmed_ids,
  unowned_errors, judge, matches_any_exclusion, remove_all,
}
use imoogi_emacs.Anki.Planner.Orphans.Census.{first_path, at_path, lookup-reconcile_source_paths}
use imoogi_emacs.Anki.Planner.Orphans.Candidates.{kept, compute_candidates-exact}
use imoogi_emacs.Anki.Planner.Orphans.Confirmed.{IsOrphan, confirm_and_delete-Deletes}
use imoogi_emacs.Anki.Planner.Orphans.Effect.{reports, confirm_and_delete-lookup}
use imoogi_emacs.Anki.Planner.Run.{start, run, pre_run_ids, collect_orphans}
use imoogi_emacs.Anki.Planner.Run.Deletions.{MayDelete, run-MayDelete}
use imoogi_emacs.Anki.Planner.Migrate.{migrate_one, migrate}
use imoogi_emacs.Anki.Planner.Migrate.Laws.{migrate_one-Migrated}
use imoogi_emacs.Anki.Planner.Migrate.Replaced.{Migrated}
use imoogi_emacs.Anki.Planner.Migrate.DryRun.{Announces, migrate-dry_run}

-- an add-on with one deck that accepts everything and numbers its notes by the requests so far
abbrev friendly : Peer
friendly = record {
  deck_names = λ h. some (text "Default" ∷ []);
  create_deck = λ h d. true;
  model_field_names = λ h m. some (text "front" ∷ text "back" ∷ []);
  add_note = λ h d m f t. some 7;
  update_note_fields = λ h n f. true;
  update_note_tags = λ h n t. true;
  notes_info = λ h ns. some [];
  change_deck = λ h c d. true;
  delete_notes = λ h ns. true;
  store_media_file = λ h n p. true;
}

abbrev plain : Peer → Env
plain peer = record {
  peer = peer;
  render = λ kind title body o. rendered ((text "Front", title) ∷ (text "Back", body) ∷ []);
  rewrite = λ root path fields. some (fields, []);
  sha256_hex = λ t. t;
  expand_tilde = λ p. p;
  default_deck = [];
  sync_root = [];
}

abbrev heading : Option ℕ → Text → Entry
heading id body = record {
  key = text "k";
  note_id = id;
  note_type = text "Basic";
  source_path = text "a.org";
  deck = none;
  tags = text "x" ∷ [];
  title = text "Q";
  body = body;
  direction = none;
  incremental = none;
  swift = none;
  org_id = [];
}

abbrev request : List CensusEntry → List Entry → Request
request census entries = record {
  protocol_version = 2;
  config = record {
    default_deck = text "Default";
    anki_connect_url = [];
    registry_path = [];
    sync_root = [];
    exclude_patterns = [];
    scan_complete = true;
  };
  census = census;
  entries = entries;
}

-- an add-on that knows one note, 7, with the content of `heading` on "A"
abbrev about_seven : RawNoteInfo
about_seven = record {
  note_id = 7;
  model_name = text "Basic";
  tags = text "x" ∷ [];
  fields = (text "Front", text "Q") ∷ (text "Back", text "A") ∷ [];
  cards = 70 ∷ [];
}

abbrev knowing : Peer
knowing = record friendly {
  add_note = λ h d m f t. some 8;
  notes_info = λ h ns. some (map (λ n. about_seven) ns);
}

abbrev seven : Registry.Entry
seven = record {
  note_id = 7;
  source_path = text "a.org";
  note_type = text "Basic";
  resolved_deck = text "Default";
  content_hash = hash (λ t. t) (text "Basic") about_seven.fields (text "Default") about_seven.tags;
}

seven-IsMap : IsMap (seven ∷ [])
unfolding lookup
seven-IsMap = (refl, tt)

-- the note is confirmed and deleted when no file mentions it
orphan_deleted :
    (run (plain knowing) (request [] []) [] (seven ∷ [])).1.history
    ≡ delete_notes (7 ∷ []) ∷ notes_info (7 ∷ []) ∷ []
unfolding run pre_run_ids collect_orphans process_entries reconcile_source_paths compute_candidates
    confirm_and_delete Runner.notes_info Runner.delete_notes ask read_infos confirmed_ids
    unowned_errors judge hash canonical all sort lookup equal matches_any_exclusion remove_all
    remove text_leb
orphan_deleted = refl

run-MayDelete_example :
    Adds
      (Deletes (MayDelete (plain knowing) (request [] []) [] (seven ∷ [])))
      []
      (run (plain knowing) (request [] []) [] (seven ∷ [])).1.history
run-MayDelete_example = run-MayDelete (plain knowing) (request [] []) [] (seven ∷ []) seven-IsMap

abbrev stocked : Runner.Runner
stocked = start [] (seven ∷ [])

abbrev fresh : Entry
fresh = heading none (text "A")

first_reply : (process_entry (plain knowing) fresh stocked).0 ≡ reply (text "k") added (some 8) []
unfolding process_entry prepare validate_card_options read_direction read_boolean dispatch lift
    ◌>>=◌ attempt resolve_fields model_field_names ask add_new_note upload_media ensure_deck
    deck_names create_deck add_note put_entry pure contains equal to_lower Dict.lookup Dict.insert
first_reply = refl

process_entry_converges_example :
    process_entry
      (plain knowing)
      (identified fresh 8)
      (process_entry (plain knowing) fresh stocked).1
    ≡ (reply (text "k") skipped (some 8) [], (process_entry (plain knowing) fresh stocked).1)
process_entry_converges_example =
    process_entry_converges (plain knowing) fresh 8 stocked
      (process_entry (plain knowing) fresh stocked).1
      (ap (λ p. is_written p.result.action) first_reply) (ap (λ p. p.result.note_id) first_reply)
      refl

process_entry-Steps_example :
    Steps (plain knowing) fresh stocked (process_entry (plain knowing) fresh stocked).1
process_entry-Steps_example = process_entry-Steps (plain knowing) fresh stocked

-- a heading and its copy
abbrev copied : List Entry
copied = heading (some 7) (text "A") ∷ heading (some 7) (text "B") ∷ []

process_entries-IsClaimedOnce_example :
    Adds (IsClaimedOnce copied) [] (process_entries (plain knowing) copied copied stocked).1.history
process_entries-IsClaimedOnce_example = process_entries-IsClaimedOnce (plain knowing) copied stocked

process_entries-keys_example :
    map (λ x. x.key) (process_entries (plain knowing) copied copied stocked).0.results
    ≡ some (text "k") ∷ some (text "k") ∷ []
process_entries-keys_example = process_entries-keys (plain knowing) copied copied stocked

compute_candidates-exact_example :
    has (compute_candidates [] (seven ∷ []) [] (7 ∷ [])) 7
    ≡ (has (7 ∷ []) 7 && not (in_census [] 7) && kept [] (lookup (seven ∷ []) 7))
compute_candidates-exact_example =
    compute_candidates-exact [] [] (7 ∷ []) (seven ∷ []) 7 seven-IsMap

confirm_and_delete-Deletes_example :
    Adds
      (Deletes (IsOrphan (plain knowing) stocked (7 ∷ []) true))
      []
      (confirm_and_delete (plain knowing) (7 ∷ []) true stocked).1.history
confirm_and_delete-Deletes_example =
    confirm_and_delete-Deletes (plain knowing) (7 ∷ []) true stocked

confirm_and_delete-lookup_example :
    let x = confirm_and_delete (plain knowing) (7 ∷ []) true stocked in
    lookup x.1.reg 7 ≡ (if reports x.0.results 7 then none else lookup (seven ∷ []) 7)
confirm_and_delete-lookup_example =
    confirm_and_delete-lookup (plain knowing) (7 ∷ []) true stocked 7

abbrev moved : List CensusEntry
moved = record { note_id = 7; source_path = text "b.org" } ∷ []

lookup-reconcile_source_paths_example :
    lookup (reconcile_source_paths moved (seven ∷ [])) 7
    ≡ at_path (first_path moved 7) (lookup (seven ∷ []) 7)
lookup-reconcile_source_paths_example = lookup-reconcile_source_paths moved (seven ∷ []) 7

new_deck : (ensure_deck (plain knowing) (text "Deck") stocked).0 ≡ ok tt
unfolding ensure_deck deck_names create_deck ask contains equal
new_deck = refl

ensure_deck_again_example :
    let r = (ensure_deck (plain knowing) (text "Deck") stocked).1 in
    ensure_deck (plain knowing) (text "Deck") r ≡ (ok tt, r)
ensure_deck_again_example = ensure_deck_again (plain knowing) (text "Deck") stocked new_deck

abbrev pictures : List Upload
pictures = record { filename = text "a.png"; path = text "/a.png" } ∷ []

pictures_sent : (upload_media (plain knowing) pictures stocked).0 ≡ ok tt
unfolding upload_media upload_one store_media_file ask contains
pictures_sent = refl

upload_media_again_example :
    let r = (upload_media (plain knowing) pictures stocked).1 in
    upload_media (plain knowing) pictures r ≡ (ok tt, r)
upload_media_again_example = upload_media_again (plain knowing) pictures stocked pictures_sent

abbrev migrating : Request
migrating = request [] (heading (some 7) (text "A") ∷ [])

migrate_one-Migrated_example :
    Migrated
      (plain knowing)
      (heading (some 7) (text "A"))
      7
      basic_name
      stocked
      (migrate_one (plain knowing) (heading (some 7) (text "A")) 7 basic_name stocked)
migrate_one-Migrated_example =
    migrate_one-Migrated (plain knowing) (heading (some 7) (text "A")) 7 basic_name stocked

migrate-dry_run_example :
    ((migrate (plain knowing) migrating true [] (seven ∷ [])).1 ≡ stocked)
    × All
        (Announces (seven ∷ []))
        (migrate (plain knowing) migrating true [] (seven ∷ [])).0.results
migrate-dry_run_example = migrate-dry_run (plain knowing) migrating [] (seven ∷ [])
