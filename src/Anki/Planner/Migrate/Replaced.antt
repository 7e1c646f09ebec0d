-- ===== src/Anki/Planner/Migrate/Replaced.antt =====
-- planner/migrate.go: what a migration leaves, and its steps that only prepare one.
use imoogi_emacs.Prelude.{ℕ, Text, true, ◌==◌, if◌then◌else◌, Option, none, some, ◌∷◌, ◌≡◌, ◌∙◌}
use imoogi_emacs.Prelude.Dict.{Dict}
use imoogi_emacs.Anki.Protocol.{Entry, Code, skipped, added}
use imoogi_emacs.Anki.Registry
use imoogi_emacs.Anki.Registry.{Registry, lookup, put, remove}
use imoogi_emacs.Anki.Client.{Call, History, delete_notes}
use imoogi_emacs.Anki.Planner.Runner.{
  Env, Runner, Outcome, ok, err, Ask, Reply, Flow, flow, next, halt, Exec, continue, attempt, ◌>>=◌,
}
use imoogi_emacs.Anki.Planner.Steps.{Walks, deck_for}
use imoogi_emacs.Anki.Planner.Log.{Touches, Adds, Adds-trans, Adds-map, Deletes, Steps-Adds}
use imoogi_emacs.Anki.Planner.Fields.{resolve_fields}
use imoogi_emacs.Anki.Planner.Branches.{Job}
use imoogi_emacs.Anki.Planner.Migrate.{prepare_migration}

abbrev pub NoDelete : Call → Type 0
NoDelete = Deletes (λ n. ⊥)

-- the registry is as it was, and nothing was deleted
pub record Untouched (r s : Runner) : Type 0 where
  pub same_reg : s.reg ≡ r.reg
  pub no_delete : Adds NoDelete r.history s.history

-- A note of the counterpart type was added to the entry's deck, with its tags and with the fields that were
-- prepared under the names of that type, and got the identifier `new`. The record of `id` is gone, `new` has
-- a record of that note with the hash that was prepared, the others are as they were, and no note
-- but `id` was deleted, and that only after the new one was added.
pub record Replaced (env : Env) (e : Entry) (id new : ℕ) (counterpart : Text) (r s : Runner)
    : Type 0 where
  pub job : Job
  pub prepared : prepare_migration env e id counterpart ≡ next job
  pub own_deck : job.resolved_deck ≡ deck_for env e
  pub fields : Dict Text
  pub resolved : (resolve_fields env counterpart job.fields r).0 ≡ ok fields
  pub before : History
  pub no_delete : Adds NoDelete r.history before
  pub accepted : env.peer.add_note before job.resolved_deck counterpart fields e.tags ≡ some new
  pub deletes :
      Adds
        (Deletes (λ n. (id == n) ≡ true))
        (Call.add_note job.resolved_deck counterpart fields e.tags ∷ before)
        s.history
  pub fresh : Registry.Entry
  pub fresh_type : fresh.note_type ≡ counterpart
  pub fresh_deck : fresh.resolved_deck ≡ job.resolved_deck
  pub fresh_hash : fresh.content_hash ≡ job.content_hash
  pub fresh_source : fresh.source_path ≡ e.source_path
  pub looks :
      (n : ℕ)
      → lookup s.reg n ≡ (if new == n then some fresh else if id == n then none else lookup r.reg n)

abbrev pub Migrated : Env → Entry → ℕ → Text → Runner → Flow Reply × Runner → Type 0
Migrated env e id counterpart r (halt p, s) = (p.result.action ≡ skipped) × Untouched r s
Migrated env e id counterpart r (next p, s) =
    (p.result.action ≡ added)
    × ((new : ℕ) × (p.result.note_id ≡ some new) × Replaced env e id new counterpart r s)

pub record Quiet {A : Type 0} (m : Ask A) : Type 0 where
  pub at : (r : Runner) → Untouched r (m r).1

Touches-NoDelete : (id : Option ℕ) (call : Call) → Touches id call → NoDelete call
Touches-NoDelete id (delete_notes ns) p = absurd p
Touches-NoDelete id _ p = tt

pub Walks-Quiet :
    {A : Type 0} (env : Env) (e : Entry) (m : Ask A)
    → ((r : Runner) → (m r).1.reg ≡ r.reg)
    → Walks env e m
    → Quiet m
Walks-Quiet env e m same w = record {
  at = λ r. record {
    same_reg = same r;
    no_delete = Adds-map (Touches-NoDelete e.note_id) (Steps-Adds (w.at r));
  };
}

module _ (env : Env) (e : Entry) (id : ℕ) (counterpart : Text) (r : Runner) where
  pub record Migrates (m : Exec Reply) : Type 0 where
    pub at : (s : Runner) → Untouched r s → Migrated env e id counterpart r (m s)

  module _ {A : Type 0} where
    flow-Migrated :
        (refuse : Code → Reply) (f : A → Exec Reply)
        → ((c : Code) → (refuse c).result.action ≡ skipped)
        → ((a : A) → Migrates (f a))
        → (o : Outcome A) (s : Runner) → Untouched r s
        → Migrated env e id counterpart r (continue (flow refuse o) f s)
    flow-Migrated refuse f skips k (ok a) s u = (k a).at s u
    flow-Migrated refuse f skips k (err c) s u = (skips c, u)

    pub attempt-Migrates :
        (m : Ask A) (refuse : Code → Reply) (f : A → Exec Reply)
        → Quiet m
        → ((c : Code) → (refuse c).result.action ≡ skipped)
        → ((a : A) → Migrates (f a))
        → Migrates (attempt m refuse >>= f)
    unfolding attempt ◌>>=◌
    attempt-Migrates m refuse f q skips k = record {
      at = λ s u. flow-Migrated refuse f skips k (m s).0 (m s).1 (record {
        same_reg = (q.at s).same_reg ∙ u.same_reg;
        no_delete = Adds-trans u.no_delete (q.at s).no_delete;
      });
    }
