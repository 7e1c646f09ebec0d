-- ===== src/Anki/Registry/File/Atomic.antt =====
-- internal/anki/registry/registry.go: the states of the files in the course of Save.
use imoogi_emacs.Prelude.{
  ℕ, Bool, true, false, if◌then◌else◌, some, List, [], ◌∷◌, ◌≡◌, refl, ◌⊎◌, inl, inr, All,
}
use imoogi_emacs.Anki.Registry.{Registry, lookup, all, load}
use imoogi_emacs.Anki.Registry.Laws.{IsMap}
use imoogi_emacs.Anki.Registry.File.{
  Files, readable, unreadable, load_file, Faults, Trace, abandon, save_renamed, save,
}
use imoogi_emacs.Anki.Registry.File.RoundTrip.{lookup-load-all}

-- Load reads a registry that looks up what `reg` does
pub record Reads (reg : Registry) (files : Files) : Type 0 where
  pub loaded : Registry
  pub reads : load_file files.target ≡ some loaded
  pub looks : (n : ℕ) → lookup loaded n ≡ lookup reg n

-- the old file or the new registry
abbrev pub Whole : Registry → Files → Files → Type 0
Whole reg old files = (files.target ≡ old.target) ⊎ Reads reg files

abbrev pub latest : Files → List Files → Files
latest old [] = old
latest old (s ∷ trace) = s

-- what the files hold once Save has returned, by whether it succeeded
abbrev pub Ends : Registry → Files → Bool → Files → Type 0
Ends reg old true files = Reads reg files
Ends reg old false files = files.target ≡ old.target

pub record IsAtomic (reg : Registry) (old : Files) (t : Trace) : Type 0 where
  pub whole : All (Whole reg old) t.1
  pub ends : Ends reg old t.0 (latest old t.1)

if-IsAtomic :
    (reg : Registry) (old : Files) (b : Bool) (s t : Trace)
    → IsAtomic reg old s
    → IsAtomic reg old t
    → IsAtomic reg old (if b then s else t)
if-IsAtomic reg old true s t u v = u
if-IsAtomic reg old false s t u v = v

abandon-IsAtomic :
    (reg : Registry) (old files : Files) (trace : List Files)
    → files.target ≡ old.target
    → All (Whole reg old) trace
    → IsAtomic reg old (abandon files trace)
abandon-IsAtomic reg old files trace h all = record { whole = (inl h, all); ends = h }

module _ (reg : Registry) (m : IsMap reg) (faults : Faults) (old : Files) where
  written-Reads : (files : Files) → files.target ≡ some (readable (all reg)) → Reads reg files
  unfolding load_file
  written-Reads files h = record {
    loaded = load (all reg);
    reads = rw h refl;
    looks = λ n. lookup-load-all reg n m;
  }

  save_renamed-IsAtomic :
      (files : Files) (trace : List Files)
      → files.target ≡ old.target
      → All (Whole reg old) trace
      → IsAtomic reg old (save_renamed faults (readable (all reg)) files trace)
  unfolding save_renamed
  save_renamed-IsAtomic files trace h whole =
      if-IsAtomic reg old faults.rename _ _ (abandon-IsAtomic reg old files trace h whole)
        (record { whole = (inr (written-Reads _ refl), whole); ends = written-Reads _ refl })

-- For a registry with one entry for each identifier: in every state that Save takes the files through, the target is as it was or Load reads the
-- registry from it, whichever operations fail; at the end Load reads the registry if Save succeeds,
-- and the target is as it was if it fails.
pub save-IsAtomic :
    (reg : Registry) (faults : Faults) (old : Files)
    → IsMap reg
    → IsAtomic reg old (save faults reg old)
unfolding save
save-IsAtomic reg faults old m =
    let made : Files = record old { temp = some unreadable } in
    let full : Files = record old { temp = some (readable (all reg)) } in
    let same : Whole reg old old = inl refl in
    let began : All (Whole reg old) (made ∷ old ∷ []) = (inl refl, (same, tt)) in
    let filled : All (Whole reg old) (full ∷ made ∷ old ∷ []) = (inl refl, began) in
    if-IsAtomic reg old faults.create _ _ (record { whole = (same, tt); ends = refl })
      (if-IsAtomic reg old faults.write _ _ (abandon-IsAtomic reg old made _ refl began) (
        if-IsAtomic reg old faults.sync _ _ (abandon-IsAtomic reg old full _ refl filled) (
          if-IsAtomic reg old faults.close _ _ (abandon-IsAtomic reg old full _ refl filled)
            (save_renamed-IsAtomic reg m faults old full _ refl filled))))
