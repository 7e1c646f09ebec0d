-- ===== src/Anki/Planner/Migrate/DryRun.antt =====
-- planner/migrate.go: Migrate as a dry run.
use imoogi_emacs.Prelude.{
  ℕ, Text, equal, true, Bool-cases, ◌⊎◌, inl, inr, Option, none, some, is_some, List, [], ◌∷◌, ◌≡◌,
  refl, ◌∙◌, subst, All, All-append, arith,
}
use imoogi_emacs.Anki.Protocol.{Entry, Request, Result, skipped, migrate_candidate}
use imoogi_emacs.Anki.Registry
use imoogi_emacs.Anki.Registry.{Registry, lookup}
use imoogi_emacs.Anki.Client.{History}
use imoogi_emacs.Anki.Planner.Runner.{Env, Runner}
use imoogi_emacs.Anki.Planner.Entries.{Report}
use imoogi_emacs.Anki.Planner.Run.{configured, start}
use imoogi_emacs.Anki.Planner.Migrate.{
  stock_counterpart, target_from, target_of, migration_target, mismatch, residue, non_candidate,
  migrate_found, migrate_target, migrate_entry, migrate_entries, migrate,
}

-- what a dry run may report: a registered note, as skipped, or as a candidate where its recorded
-- type is a stock one
pub record Announces (reg : Registry) (x : Result) : Type 0 where
  pub id : ℕ
  pub prior : Registry.Entry
  pub about : x.note_id ≡ some id
  pub registered : lookup reg id ≡ some prior
  pub verdict :
      (x.action ≡ skipped)
      ⊎ ((x.action ≡ migrate_candidate) × (is_some (stock_counterpart prior.note_type) ≡ true))

module _ (e : Entry) (reg : Registry) where
  mismatch-Announces :
      (id : ℕ) (l : Option Registry.Entry)
      → lookup reg id ≡ l
      → All (Announces reg) (mismatch e id l).results
  unfolding mismatch
  mismatch-Announces id none h = tt
  mismatch-Announces id (some prior) h = elim (Bool-cases (equal prior.note_type e.note_type)) [
    | inl same ↦ rw same tt
    | inr other ↦
        rw other
          (record { id = id; prior = prior; about = refl; registered = h; verdict = inl refl }, tt)
  ]

  residue-Announces : (o : Option ℕ) → All (Announces reg) (residue e reg o).results
  unfolding residue
  residue-Announces none = tt
  residue-Announces (some id) = mismatch-Announces id (lookup reg id) refl

  non_candidate-Announces : All (Announces reg) (non_candidate e reg).results
  unfolding non_candidate
  non_candidate-Announces = residue-Announces e.note_id

Stock : Option Registry.Entry → Type 0
Stock l =
    (prior : Registry.Entry) × (l ≡ some prior)
    × (is_some (stock_counterpart prior.note_type) ≡ true)

target_from-Stock :
    (declared : Text) (l : Option Registry.Entry)
    → is_some (target_from declared l) ≡ true
    → Stock l
unfolding target_from Stock
target_from-Stock declared none h = cc
target_from-Stock declared (some prior) h = (prior, refl, ground arith)

-- what is reported is announced, and the state is as it was
record Looks (r : Runner) (x : Report × Runner) : Type 0 where
  announced : All (Announces r.reg) x.0.results
  kept : x.1 ≡ r

module _ (env : Env) (e : Entry) (r : Runner) where
  migrate_target-Looks :
      (o : Option ℕ) (t : Option Text)
      → t ≡ target_of e r.reg o
      → Looks r (migrate_target env true e o t r)
  unfolding migrate_target migrate_found target_of Stock
  migrate_target-Looks none t h = record {
    announced = non_candidate-Announces e r.reg;
    kept = refl;
  }
  migrate_target-Looks (some id) none h = record {
    announced = non_candidate-Announces e r.reg;
    kept = refl;
  }
  migrate_target-Looks (some id) (some c) h =
      let (prior, found, stock) = target_from-Stock e.note_type (lookup r.reg id) (rw (← h) refl) in
      record {
        announced = (
          record {
            id = id;
            prior = prior;
            about = refl;
            registered = found;
            verdict = inr (refl, stock);
          },
          tt,
        );
        kept = refl;
      }

  migrate_entry-Looks : Looks r (migrate_entry env true e r)
  unfolding migrate_entry migration_target
  migrate_entry-Looks = migrate_target-Looks e.note_id _ refl

migrate_entries-Looks :
    (env : Env) (es : List Entry) (r : Runner) → Looks r (migrate_entries env true es r)
unfolding migrate_entries
migrate_entries-Looks env [] r = record { announced = tt; kept = refl }
migrate_entries-Looks env (e ∷ es) r =
    let first = migrate_entry-Looks env e r in
    let s = (migrate_entry env true e r).1 in
    let rest = migrate_entries-Looks env es s in
    record {
      announced = All-append _ (migrate_entry env true e r).0.results _ first.announced (
          subst (λ x. All (Announces x.reg) (migrate_entries env true es s).0.results) first.kept
            rest.announced);
      kept = rest.kept ∙ first.kept;
    }

-- A dry run makes no request and leaves the registry as it was, and what it reports are registered
-- notes, each as skipped, or as a candidate where its recorded type is a stock one.
pub migrate-dry_run :
    (env : Env) (req : Request) (history : History) (reg : Registry)
    → ((migrate env req true history reg).1 ≡ start history reg)
      × All (Announces reg) (migrate env req true history reg).0.results
unfolding migrate
migrate-dry_run env req history reg =
    let looks = migrate_entries-Looks (configured env req) req.entries (start history reg) in
    (looks.kept, looks.announced)
