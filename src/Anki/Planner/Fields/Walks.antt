-- ===== src/Anki/Planner/Fields/Walks.antt =====
-- planner/planner.go: resolveFields as steps of an entry.
use imoogi_emacs.Prelude.{Text, Option, none, some, List, refl}
use imoogi_emacs.Prelude.Dict.{Dict, lookup}
use imoogi_emacs.Anki.Protocol.{Entry, ankiconnect_error}
use imoogi_emacs.Anki.Planner.Runner.{Env, Runner, Outcome, ok, err}
use imoogi_emacs.Anki.Planner.Steps.{Steps, here, after, caches, Walks}
use imoogi_emacs.Anki.Planner.Steps.Calls.{model_field_names-Walks}
use imoogi_emacs.Anki.Planner.Fields.{cache_names, cached_names, resolve_fields}

cache_names-Steps :
    (env : Env) (e : Entry) (t : Text) (o : Outcome (List Text)) {r s : Runner}
    → Steps env e r s
    → Steps env e r (cache_names t o s).1
unfolding cache_names
cache_names-Steps env e t (ok names) p = after p (caches refl refl)
cache_names-Steps env e t (err c) p = p

cached_names-Walks :
    (env : Env) (e : Entry) (t : Text) (o : Option (List Text)) → Walks env e (cached_names env t o)
unfolding cached_names
cached_names-Walks env e t (some names) = record { at = λ r. here }
cached_names-Walks env e t none = record {
  at = λ r. cache_names-Steps env e t _ ((model_field_names-Walks env e ankiconnect_error t).at r);
}

pub resolve_fields-Walks :
    (env : Env) (e : Entry) (t : Text) (fields : Dict Text)
    → Walks env e (resolve_fields env t fields)
unfolding resolve_fields
resolve_fields-Walks env e t fields = record {
  at = λ r. (cached_names-Walks env e t (lookup t r.model_fields)).at r;
}
