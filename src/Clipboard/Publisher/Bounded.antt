-- ===== src/Clipboard/Publisher/Bounded.antt =====
-- internal/clipboard/publish.go: which sources preflightSources admits.
use imoogi_emacs.Prelude.{
  ℕ, ◌+◌, ◌≤◌, Text, true, false, ◌||◌, ltb, List, [], ◌∷◌, length, ◌≡◌, ◌↔◌, refl, sym, ap, subst,
  arith, Bool-cases, inl, inr,
}
use imoogi_emacs.Clipboard.Publisher.Sources.{
  Limits, Stat, missing, folder, irregular, regular, SourceFile, Checked, refused, sources,
  and_then, on_stat, admit, check_each, preflight_sources,
}

-- each path is that of a regular file of the size noted, which is within the limit
abbrev pub Match : Limits → (Text → Stat) → List Text → List SourceFile → Type 0
Match limits lstat [] [] = Unit
Match limits lstat (p ∷ ps) (s ∷ ss) =
    (s.path ≡ p)
    × (lstat p ≡ regular s.size)
    × (s.size ≤ limits.max_file_bytes)
    × Match limits lstat ps ss
Match limits lstat _ _ = ⊥

abbrev pub sum : List SourceFile → ℕ
sum [] = 0
sum (s ∷ ss) = s.size + sum ss

sources_eq : {ss ts : List SourceFile} → sources ss ≡ sources ts → ss ≡ ts
sources_eq e = cc

and_then_sources :
    (s : SourceFile) (c : Checked) (ss : List SourceFile)
    → and_then s c ≡ sources ss
    → (ts : List SourceFile) × (c ≡ sources ts) × (s ∷ ts ≡ ss)
and_then_sources s (refused e) ss h = cc
and_then_sources s (sources ts) ss h = (ts, refl, sources_eq h)

module _ (limits : Limits) (lstat : Text → Stat) where
  admit_sources :
      (p : Text) (size n : ℕ) (c : Checked) (ss : List SourceFile)
      → admit limits p size n c ≡ sources ss
      → (size ≤ limits.max_file_bytes)
        × (n + size ≤ limits.max_batch_bytes)
        × (and_then (record { path = p; size = size }) c ≡ sources ss)
  admit_sources p size n c ss h = ground arith

  within :
      (size n : ℕ)
      → size ≤ limits.max_file_bytes
      → n + size ≤ limits.max_batch_bytes
      → (ltb limits.max_file_bytes size || ltb limits.max_batch_bytes (n + size)) ≡ false
  within size n h k = ground arith

  check_each_sound :
      (n : ℕ) (ps : List Text) (ss : List SourceFile)
      → n ≤ limits.max_batch_bytes
      → check_each limits lstat n ps ≡ sources ss
      → Match limits lstat ps ss × (n + sum ss ≤ limits.max_batch_bytes)
  unfolding check_each
  check_each_sound n [] [] b h = (tt, omega (arith, b))
  check_each_sound n [] (s ∷ ss) b h = cc
  check_each_sound n (p ∷ ps) ss b h =
      by_stat (lstat p) refl h (λ total ts. check_each_sound total ps ts)
    where
      by_stat :
          (o : Stat)
          → lstat p ≡ o
          → on_stat limits p n (λ total. check_each limits lstat total ps) o ≡ sources ss
          → ((total : ℕ) (ts : List SourceFile)
              → total ≤ limits.max_batch_bytes
              → check_each limits lstat total ps ≡ sources ts
              → Match limits lstat ps ts × (total + sum ts ≤ limits.max_batch_bytes))
          → Match limits lstat (p ∷ ps) ss × (n + sum ss ≤ limits.max_batch_bytes)
      by_stat missing e k further = cc
      by_stat folder e k further = cc
      by_stat irregular e k further = cc
      by_stat (regular size) e k further =
          let (f, t, a) = admit_sources p size n (check_each limits lstat (n + size) ps) ss k in
          let (ts, c, q) = and_then_sources _ (check_each limits lstat (n + size) ps) ss a in
          let (m, l) = further (n + size) ts t c in
          subst (λ ss. Match limits lstat (p ∷ ps) ss × (n + sum ss ≤ limits.max_batch_bytes)) q
            ((refl, e, f, m), omega (arith, l))

  check_each_complete :
      (n : ℕ) (ps : List Text) (ss : List SourceFile)
      → Match limits lstat ps ss
      → n + sum ss ≤ limits.max_batch_bytes
      → check_each limits lstat n ps ≡ sources ss
  unfolding check_each
  check_each_complete n [] [] m b = refl
  check_each_complete n [] (s ∷ ss) m b = elim m [ ]
  check_each_complete n (p ∷ ps) [] m b = elim m [ ]
  check_each_complete n (p ∷ ps) (s ∷ ss) m b =
      let rest = check_each_complete (n + s.size) ps ss m.3 (omega (arith, b)) in
      rw (m.1, rest, within s.size n m.2 (omega (arith, b)))
        (ap (λ q. sources (record { path = q; size = s.size } ∷ ss)) (sym m.0))

over : {a b : ℕ} → ltb a b ≡ true → b ≤ a → ⊥
over e h = ground arith

not_over : {a b : ℕ} → ltb a b ≡ false → b ≤ a
not_over e = ground arith

-- Publishing starts with exactly these sources: at least one and at most as many as the limit, each the
-- path of a regular file within the limit of a file, and all together within the limit of a batch.
pub preflight_sources_iff :
    (limits : Limits) (lstat : Text → Stat) (ps : List Text) (ss : List SourceFile)
    → (preflight_sources limits lstat ps ≡ sources ss) ↔ (
        (1 ≤ length ps)
        × (length ps ≤ limits.max_files)
        × Match limits lstat ps ss
        × (sum ss ≤ limits.max_batch_bytes))
unfolding preflight_sources
preflight_sources_iff limits lstat [] ss = (λ e. cc, λ m. absurd (omega (arith, m.0)))
preflight_sources_iff limits lstat (p ∷ ps) ss =
    elim (Bool-cases (ltb limits.max_files (length (p ∷ ps)))) [
      | inl e ↦ rw e (λ h. cc, λ m. absurd (over e m.1))
      | inr e ↦ rw e (
        λ h.
            let (m, b) = check_each_sound limits lstat 0 (p ∷ ps) ss (omega arith) h in
            (omega arith, not_over e, m, omega (arith, b)),
        λ m. check_each_complete limits lstat 0 (p ∷ ps) ss m.2 (omega (arith, m.3)),
      )
    ]
