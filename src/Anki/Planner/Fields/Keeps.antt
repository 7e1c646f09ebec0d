-- ===== src/Anki/Planner/Fields/Keeps.antt =====
-- planner/planner.go: resolveFields and the registry.
use imoogi_emacs.Prelude.{Text, Option, none, some, List, ◌≡◌, refl}
use imoogi_emacs.Prelude.Dict.{Dict, lookup}
use imoogi_emacs.Anki.Planner.Runner.{Env, Runner, Outcome, ok, err, ask, model_field_names}
use imoogi_emacs.Anki.Planner.Fields.{cache_names, cached_names, field_names, resolve_fields}

cache_names-reg :
    (t : Text) (o : Outcome (List Text)) (r : Runner) → (cache_names t o r).1.reg ≡ r.reg
unfolding cache_names
cache_names-reg t (ok names) r = refl
cache_names-reg t (err c) r = refl

cached_names-reg :
    (env : Env) (t : Text) (o : Option (List Text)) (r : Runner)
    → (cached_names env t o r).1.reg ≡ r.reg
unfolding cached_names model_field_names ask
cached_names-reg env t (some names) r = refl
cached_names-reg env t none r = cache_names-reg t _ _

pub resolve_fields-reg :
    (env : Env) (t : Text) (fields : Dict Text) (r : Runner)
    → (resolve_fields env t fields r).1.reg ≡ r.reg
unfolding resolve_fields field_names
resolve_fields-reg env t fields r = cached_names-reg env t (lookup t r.model_fields) r
