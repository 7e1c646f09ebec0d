-- ===== src/Agent/Args/Laws.antt =====
-- internal/agentipc/request.go: any options and positional arguments survive writing and parsing.
use imoogi_emacs.Prelude.{
  Text, text, equal, equal_iff, equal_refl, contains, contains-append, All, true, false, ◌||◌, none,
  List, [], ◌∷◌, ◌++◌, ◌≡◌, refl, sym, ap, ◌∙◌, subst, arith, Bool-cases, inl, inr,
}
use mathlib.Core.List.{append_assoc, append-nil}
use imoogi_emacs.Prelude.Dict.{Dict, lookup, insert}
use imoogi_emacs.Agent.Args.{
  ok, common_options, artifact_options, finish_options, is_known_option, is_dashed, Arguments,
  add_positional, add_option, parse_loop, no_arguments, parse_args,
}

-- the options, each with its value, then `--` and the positional arguments
abbrev pub written : Dict Text → List Text → List Text
written [] positional = text "--" ∷ positional
written ((k, v) ∷ m) positional = k ∷ v ∷ written m positional

-- known options that are neither repeated nor among those given before
abbrev pub AreFresh : Dict Text → Dict Text → Type 0
AreFresh [] before = Unit
AreFresh ((k, v) ∷ m) before =
    (is_known_option k ≡ true) × (lookup k before ≡ none) × AreFresh m (before ++ (k, v) ∷ [])

insert-absent : (k v : Text) (m : Dict Text) → lookup k m ≡ none → insert k v m ≡ m ++ (k, v) ∷ []
unfolding insert lookup
insert-absent k v [] h = refl
insert-absent k v ((j, w) ∷ m) h = ground (arith, insert-absent k v m)

-- begins with a dash, and is not `--`
abbrev IsOption : Text → Type 0
IsOption t = (is_dashed t ≡ true) × (equal t (text "--") ≡ false)

contains-All : (k : Text) (xs : List Text) → All IsOption xs → contains k xs ≡ true → IsOption k
unfolding contains
contains-All k [] all h = cc
contains-All k (x ∷ xs) all h = elim (Bool-cases (equal x k)) [
  | inl e ↦ subst IsOption ((equal_iff x k).0 e) all.0
  | inr e ↦ contains-All k xs all.1 (sym (rw e refl) ∙ h)
]

All-options : All IsOption ((common_options ++ artifact_options) ++ finish_options)
unfolding is_dashed equal
All-options = (
  (refl, refl),
  ((refl, refl), ((refl, refl), ((refl, refl), ((refl, refl), ((refl, refl), tt))))),
)

known-IsOption : (k : Text) → is_known_option k ≡ true → IsOption k
unfolding is_known_option
known-IsOption k h =
    contains-All k ((common_options ++ artifact_options) ++ finish_options) All-options (
      contains-append k (common_options ++ artifact_options) finish_options
      ∙ (ap (λ b. b || contains k finish_options)
            (contains-append k common_options artifact_options)
          ∙ h))

parse_positional :
    (positional : List Text) (a : Arguments)
    → parse_loop (text "--" ∷ positional) a ≡ ok (add_positional positional a)
unfolding parse_loop
parse_positional [] a = rw (equal_refl (text "--")) refl
parse_positional (p ∷ ps) a = rw (equal_refl (text "--")) refl

parse_option :
    (k v : Text) (rest : List Text) (a : Arguments)
    → is_known_option k ≡ true
    → lookup k a.options ≡ none
    → parse_loop (k ∷ v ∷ rest) a ≡ parse_loop rest (add_option k v a)
unfolding parse_loop
parse_option k v rest a known fresh =
    let shape = known-IsOption k known in rw (shape.1, shape.0, known, fresh) refl

parse_loop-written :
    (m : Dict Text) (positional : List Text) (a : Arguments)
    → AreFresh m a.options
    → parse_loop (written m positional) a
      ≡ ok (record { positional = a.positional ++ positional; options = a.options ++ m })
parse_loop-written [] positional a h =
    parse_positional positional a
    ∙ ap (λ o. ok (record { positional = a.positional ++ positional; options = o }))
        (sym (append-nil a.options))
parse_loop-written ((k, v) ∷ m) positional a h =
    let grown = insert-absent k v a.options h.1 in
    parse_option k v (written m positional) a h.0 h.1
    ∙ (parse_loop-written m positional (add_option k v a) (rw grown h.2)
        ∙ ap (λ o. ok (record { positional = a.positional ++ positional; options = o }))
            (ap (λ o. o ++ m) grown ∙ append_assoc a.options ((k, v) ∷ []) m))

-- Known options without repetition, each followed by its value, then `--` and any arguments, are parsed
-- to these options and arguments, whatever the values and arguments look like.
pub parse_args-written :
    (m : Dict Text) (positional : List Text)
    → AreFresh m []
    → parse_args (written m positional) ≡ ok (record { positional = positional; options = m })
unfolding parse_args
parse_args-written m positional h = parse_loop-written m positional no_arguments h
