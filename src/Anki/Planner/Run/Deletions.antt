-- ===== src/Anki/Planner/Run/Deletions.antt =====
-- planner/planner.go: the deletions of a whole run.
use imoogi_emacs.Prelude.{
  ℕ, Bool, true, false, ◌&&◌, ◌==◌, Option, none, some, is_some, List, any, ◌≡◌, refl, ap, sym, ◌∙◌,
  arith,
}
use mathlib.Core.Path.{fun_ext}
use imoogi_emacs.Anki.Protocol.{Entry, Request}
use imoogi_emacs.Anki.Registry
use imoogi_emacs.Anki.Registry.{Registry, lookup, put, all}
use imoogi_emacs.Anki.Registry.Laws.{IsMap, passes, any-all}
use imoogi_emacs.Anki.Client.{Call, History, delete_notes}
use imoogi_emacs.Anki.Planner.Runner.{Env, Runner}
use imoogi_emacs.Anki.Planner.Log.{Adds, Adds-trans, Adds-map, Deletes, Deletes-map}
use imoogi_emacs.Anki.Planner.Entries.{process_entries}
use imoogi_emacs.Anki.Planner.Entries.Loop.{
  IsClaimedOnce, process_entries-IsClaimedOnce, process_entries-IsMap,
}
use imoogi_emacs.Anki.Planner.Orphans.{has, in_census, reconcile_source_paths, compute_candidates}
use imoogi_emacs.Anki.Planner.Orphans.Census.{reconcile_source_paths-IsMap}
use imoogi_emacs.Anki.Planner.Orphans.Candidates.{has-ids, kept, compute_candidates-exact}
use imoogi_emacs.Anki.Planner.Orphans.Confirmed.{IsOrphan, confirm_and_delete-Deletes}
use imoogi_emacs.Anki.Planner.Run.{configured, start, pre_run_ids, collect_orphans, run}

IsClaimedOnce-Deletes :
    (P : ℕ → Type 0) (entries : List Entry) (call : Call)
    → IsClaimedOnce entries call
    → Deletes P call
IsClaimedOnce-Deletes P entries (delete_notes ns) p = absurd p
IsClaimedOnce-Deletes P entries _ p = tt

and_true : (b : Bool) → b ≡ (b && true)
and_true b = ground arith

passes_any : (o : Option Registry.Entry) → passes (λ e. true) o ≡ is_some o
passes_any none = refl
passes_any (some e) = refl

has-pre_run_ids :
    (reg : Registry) (n : ℕ) → IsMap reg → has (pre_run_ids reg) n ≡ is_some (lookup reg n)
unfolding pre_run_ids
has-pre_run_ids reg n m =
    has-ids n (all reg)
    ∙ ap (λ p. any p (all reg)) (fun_ext λ e. and_true (e.note_id == n))
    ∙ any-all (λ e. true) reg n m
    ∙ passes_any (lookup reg n)

-- the state after the entries, with the paths of the census
abbrev pub before_orphans : Env → Request → History → Registry → Runner
before_orphans env req history reg =
    let r = (process_entries (configured env req) req.entries req.entries (start history reg)).1 in
    record r { reg = reconcile_source_paths req.census r.reg }

-- why a run may delete a note
pub record MayDelete (env : Env) (req : Request) (history : History) (reg : Registry) (n : ℕ)
    : Type 0 where
  -- the scan of the sync root was complete
  pub complete : req.config.scan_complete ≡ true
  -- the note was registered before the run
  pub registered : is_some (lookup reg n) ≡ true
  -- no file still mentions it
  pub unmentioned : in_census req.census n ≡ false
  -- its record is clear of the exclusions
  pub clear :
      kept req.config.exclude_patterns (lookup (before_orphans env req history reg).reg n) ≡ true
  -- and the add-on's answer matches that record
  pub candidates : List ℕ
  pub orphan : IsOrphan env (before_orphans env req history reg) candidates true n

module _ (env : Env) (req : Request) (history : History) (reg : Registry) (m : IsMap reg) where
  may_delete :
      (n : ℕ)
      → IsOrphan
          (configured env req)
          (before_orphans env req history reg)
          (compute_candidates req.census
            (before_orphans env req history reg).reg
            req.config.exclude_patterns
            (pre_run_ids reg))
          req.config.scan_complete
          n
      → MayDelete env req history reg n
  may_delete n o =
      let after = before_orphans env req history reg in
      let is_map : IsMap after.reg = reconcile_source_paths-IsMap req.census _ (
        process_entries-IsMap (configured env req) req.entries req.entries (start history reg) m) in
      let candidate =
        sym (
          compute_candidates-exact req.census req.config.exclude_patterns (pre_run_ids reg)
            after.reg n is_map)
        ∙ o.1.2.candidate in
      record {
        complete = o.0;
        registered = ground (arith, candidate, has-pre_run_ids reg n m);
        unmentioned = ground (arith, candidate);
        clear = ground (arith, candidate);
        candidates = _;
        orphan = (refl, o.1);
      }

  -- Where the registry has one record for each identifier, every delete request of a run names
  -- only notes for which the scan was complete, that were registered before the run, that the
  -- census does not report, whose record after the entries and the census no exclusion matches,
  -- and about which the add-on's answer matches that record.
  pub run-MayDelete :
      Adds (Deletes (MayDelete env req history reg)) history (run env req history reg).1.history
  unfolding run collect_orphans
  run-MayDelete =
      Adds-trans
        (Adds-map (IsClaimedOnce-Deletes _ req.entries)
          (process_entries-IsClaimedOnce (configured env req) req.entries (start history reg)))
        (Adds-map (Deletes-map _ may_delete) (
          confirm_and_delete-Deletes (configured env req) _ req.config.scan_complete
            (before_orphans env req history reg)))
