-- ===== src/Anki/Planner/Log.antt =====
-- planner/planner.go: the requests that a part of a run adds to the history.
use imoogi_emacs.Prelude.{ℕ, Option, some, ◌≡◌, sym, ap, subst, ◌∷◌, All, All-imp}
use imoogi_emacs.Anki.Protocol.{Entry}
use imoogi_emacs.Anki.Registry.Laws.{IsMap, put-IsMap}
use imoogi_emacs.Anki.Client.{Call, History, delete_notes, update_note_fields, update_note_tags}
use imoogi_emacs.Anki.Planner.Runner.{Runner, Env}
use imoogi_emacs.Anki.Planner.Steps.{Permits, Step, asks, caches, records, Steps, here, after}

-- every request since `h` satisfies `P`
pub data Adds (P : Call → Type 0) (h : History) : History → Type 0 where
  nothing : Adds P h h
  request : {t : History} (call : Call) → P call → Adds P h t → Adds P h (call ∷ t)

module _ {P : Call → Type 0} where
  pub Adds-trans : {h t u : History} → Adds P h t → Adds P t u → Adds P h u
  Adds-trans a nothing = a
  Adds-trans a (request call p b) = request call p (Adds-trans a b)

  pub Adds-map :
      {Q : Call → Type 0} {h t : History}
      → ((call : Call) → P call → Q call)
      → Adds P h t
      → Adds Q h t
  Adds-map f nothing = nothing
  Adds-map f (request call p a) = request call (f call p) (Adds-map f a)

-- the identifiers of every delete request satisfy `P`
abbrev pub Deletes : (ℕ → Type 0) → Call → Type 0
Deletes P (delete_notes ids) = All P ids
Deletes P _ = Unit

pub Deletes-map :
    {P : ℕ → Type 0} (Q : ℕ → Type 0)
    → ((n : ℕ) → P n → Q n)
    → (call : Call) → Deletes P call
    → Deletes Q call
Deletes-map Q f (delete_notes ids) p = All-imp Q ids f p
Deletes-map Q f _ p = tt

-- what the requests of an entry may touch, whatever was asked before: its own note, and none is deleted
abbrev pub Touches : Option ℕ → Call → Type 0
Touches id (update_note_fields n fields) = id ≡ some n
Touches id (update_note_tags n tags) = id ≡ some n
Touches id (delete_notes ns) = ⊥
Touches id _ = Unit

Permits-Touches :
    (env : Env) (e : Entry) (h : History) (call : Call)
    → Permits env e h call
    → Touches e.note_id call
Permits-Touches env e h (update_note_fields n fields) p = p
Permits-Touches env e h (update_note_tags n tags) p = p.0
Permits-Touches env e h (delete_notes ns) p = p
Permits-Touches env e h _ p = tt

module _ (env : Env) (e : Entry) (h : History) where
  abbrev Logged : History → Type 0
  Logged = Adds (Touches e.note_id) h

  Step-Adds : {r r' : Runner} → Step env e r r' → Logged r.history → Logged r'.history
  Step-Adds {r} (asks call p q) a =
      subst Logged (sym (ap (λ x. x.history) q))
        (request call (Permits-Touches env e r.history call p) a)
  Step-Adds (caches q k) a = subst Logged (sym q) a
  Step-Adds (records x t own q) a = subst Logged (sym (ap (λ x. x.history) q)) a

-- The requests that the steps of an entry add touch only what it may.
pub Steps-Adds :
    {env : Env} {e : Entry} {r r' : Runner}
    → Steps env e r r'
    → Adds (Touches e.note_id) r.history r'.history
Steps-Adds here = nothing
Steps-Adds {env} {e} {r} (after p st) = Step-Adds env e r.history st (Steps-Adds p)

Step-IsMap : {env : Env} {e : Entry} {r r' : Runner} → Step env e r r' → IsMap r.reg → IsMap r'.reg
Step-IsMap (asks call p q) m = subst IsMap (sym (ap (λ x. x.reg) q)) m
Step-IsMap (caches q k) m = subst IsMap (sym k) m
Step-IsMap {r = r} (records x t own q) m =
    subst IsMap (sym (ap (λ x. x.reg) q)) (put-IsMap r.reg x m)

-- The steps of an entry keep one record for each identifier.
pub Steps-IsMap :
    {env : Env} {e : Entry} {r r' : Runner} → Steps env e r r' → IsMap r.reg → IsMap r'.reg
Steps-IsMap here m = m
Steps-IsMap (after p st) m = Step-IsMap st (Steps-IsMap p m)
