-- ===== src/Anki/Planner/Orphans/Confirmed.antt =====
-- planner/planner.go: the deletions of confirmAndDelete.
use imoogi_emacs.Prelude.{
  ℕ, Text, equal_iff, Bool, true, false, Option, none, some, Option-cases, List, [], ◌∷◌, some_eq,
  All, All-imp, All-map-keep, subst, sym, ◌≡◌, refl, ◌∙◌, arith, inl, inr, ==_refl,
}
use mathlib.Core.List.{Memᴰ}
use imoogi_emacs.Anki.Protocol.{Code, Error, delete_suppressed}
use imoogi_emacs.Anki.Registry
use imoogi_emacs.Anki.Registry.{Registry, lookup}
use imoogi_emacs.Anki.Hashing.{hash}
use imoogi_emacs.Anki.Client.{Call, NoteInfo, RawNoteInfo, read_infos}
use imoogi_emacs.Anki.Planner.Runner.{
  Env, Runner, Outcome, ok, err, ask, infos_answer, notes_info, delete_notes,
}
use imoogi_emacs.Anki.Planner.Log.{Adds, Adds-trans, nothing, request, Deletes}
use imoogi_emacs.Anki.Planner.Orphans.{
  has, Verdict, judge, owned, confirmed, is_confirmed, confirmed_ids, after_delete,
  delete_confirmed, after_query, confirm_and_delete,
}

-- The add-on describes the note as its record does: it exists, with the recorded type, and with
-- fields and tags that hash to the recorded hash.
pub record Matches (sha256_hex : Text → Text) (x : Registry.Entry) (info : NoteInfo) : Type 0 where
  pub exists : info.exists ≡ true
  pub same_type : info.model_name ≡ x.note_type
  pub same_content :
      hash sha256_hex info.model_name info.fields x.resolved_deck info.tags ≡ x.content_hash

pub record IsConfirmed (sha256_hex : Text → Text) (reg : Registry) (candidates : List ℕ)
    (infos : List NoteInfo) (n : ℕ) : Type 0 where
  pub candidate : has candidates n ≡ true
  pub entry : Registry.Entry
  pub recorded : lookup reg n ≡ some entry
  pub info : NoteInfo
  pub among : Memᴰ info infos
  pub about : info.note_id ≡ n
  pub matches : Matches sha256_hex entry info

is_confirmed_lem : {v : Verdict} → is_confirmed v ≡ true → v ≡ confirmed
is_confirmed_lem {v} h = ground arith

All-Memᴰ : (infos : List NoteInfo) → All (λ i. Memᴰ i infos) infos
All-Memᴰ [] = tt
All-Memᴰ (i ∷ infos) = (Memᴰ.head refl, All-imp _ infos (λ x m. Memᴰ.tail m) (All-Memᴰ infos))

All-both :
    (P Q : NoteInfo → Type 0) (infos : List NoteInfo)
    → All P infos
    → All Q infos
    → All (λ i. P i × Q i) infos
All-both P Q [] p q = tt
All-both P Q (i ∷ infos) p q = ((p.0, q.0), All-both P Q infos p.1 q.1)

module _ (sha256_hex : Text → Text) (reg : Registry) (candidates : List ℕ) where
  owned-Matches :
      (info : NoteInfo) (o : Option Registry.Entry)
      → info.exists ≡ true
      → owned sha256_hex info o ≡ confirmed
      → (x : Registry.Entry) × (o ≡ some x) × Matches sha256_hex x info
  unfolding owned
  owned-Matches info none h c = cc
  owned-Matches info (some x) h c = (
    x,
    refl,
    record {
      exists = h;
      same_type = ground (arith, equal_iff info.model_name x.note_type);
      same_content = ground (
        arith,
        equal_iff (hash sha256_hex info.model_name info.fields x.resolved_deck info.tags)
            x.content_hash,
      );
    },
  )

  judge-IsConfirmed :
      (infos : List NoteInfo) (info : NoteInfo)
      → (has candidates info.note_id ≡ true) × Memᴰ info infos
      → judge sha256_hex reg info ≡ confirmed
      → IsConfirmed sha256_hex reg candidates infos info.note_id
  unfolding judge
  judge-IsConfirmed infos info c h =
      let exists : info.exists ≡ true = ground arith in
      let (x, recorded, m) = owned-Matches info (lookup reg info.note_id) exists (ground arith) in
      record {
        candidate = c.0;
        entry = x;
        recorded = recorded;
        info = info;
        among = c.1;
        about = refl;
        matches = m;
      }

  pub keep-IsConfirmed :
      (infos : List NoteInfo)
      → All (λ i. has candidates i.note_id ≡ true) infos
      → All (IsConfirmed sha256_hex reg candidates infos) (confirmed_ids sha256_hex reg infos)
  unfolding confirmed_ids
  keep-IsConfirmed infos all =
      All-map-keep (IsConfirmed sha256_hex reg candidates infos) (λ i. i.note_id)
        (λ i. is_confirmed (judge sha256_hex reg i)) infos
        (λ i passes c. judge-IsConfirmed infos i c (is_confirmed_lem passes))
        (All-both _ _ infos all (All-Memᴰ infos))

-- the identifiers of an answer are those asked about
pub All-has : (ids : List ℕ) → All (λ n. has ids n ≡ true) ids
All-has [] = tt
All-has (n ∷ ids) = (ground (arith, ==_refl n), All-imp _ ids (λ k h. ground arith) (All-has ids))

pub read_infos-All :
    (candidates ids : List ℕ) (raw : List RawNoteInfo) {infos : List NoteInfo}
    → All (λ n. has candidates n ≡ true) ids
    → read_infos ids raw ≡ some infos
    → All (λ i. has candidates i.note_id ≡ true) infos
unfolding read_infos
read_infos-All candidates [] [] all h =
    subst (All (λ i. has candidates i.note_id ≡ true)) (some_eq h) tt
read_infos-All candidates [] (r ∷ raw) all h = cc
read_infos-All candidates (n ∷ ids) [] all h = cc
read_infos-All candidates (n ∷ ids) (r ∷ raw) {infos} all h =
    elim (Option-cases (read_infos ids raw)) [
      | inl e ↦ (let none_is_some : none ≡ some infos = rw e at h in cc)
      | inr (rest, e) ↦
          subst (All (λ i. has candidates i.note_id ≡ true)) (some_eq (rw e at h))
            (all.0, read_infos-All candidates ids raw all.1 e)
    ]

module _ (env : Env) where
  after_delete-history :
      (ids : List ℕ) (errors : List Error) (o : Outcome (Unit {0})) (r : Runner)
      → (after_delete ids errors o r).1.history ≡ r.history
  unfolding after_delete
  after_delete-history ids errors (ok u) r = refl
  after_delete-history ids errors (err c) r = refl

  delete_confirmed-Deletes :
      (P : ℕ → Type 0) (ids : List ℕ) (errors : List Error) (r : Runner)
      → All P ids
      → Adds (Deletes P) r.history (delete_confirmed env ids errors r).1.history
  unfolding delete_confirmed delete_notes ask
  delete_confirmed-Deletes P [] errors r all = nothing
  delete_confirmed-Deletes P (n ∷ ids) errors r all =
      subst (Adds (Deletes P) r.history) (sym (after_delete-history (n ∷ ids) errors _ _))
        (request (Call.delete_notes (n ∷ ids)) all nothing)

  -- the answer of the add-on about some notes, if it can be read
  abbrev pub answer : Runner → List ℕ → Option (List NoteInfo)
  answer r ids = infos_answer ids (env.peer.notes_info r.history ids)

  abbrev pub IsOrphan : Runner → List ℕ → Bool → ℕ → Type 0
  IsOrphan r candidates complete n =
      (complete ≡ true)
      × ((infos : List NoteInfo) × (answer r candidates ≡ some infos)
          × IsConfirmed env.sha256_hex r.reg candidates infos n)

  after_query-Deletes :
      (candidates : List ℕ) (code : Code) (o : Option (List RawNoteInfo)) (r s : Runner)
      → s.reg ≡ r.reg
      → infos_answer candidates o ≡ answer r candidates
      → Adds
          (Deletes (IsOrphan r candidates true))
          s.history
          (after_query env
            (elim (infos_answer candidates o) [ none ↦ err code | some a ↦ ok a ])
            s).1.history
  unfolding after_query
  after_query-Deletes candidates code none r s same q = nothing
  after_query-Deletes candidates code (some raw) r s same q =
      elim (Option-cases (read_infos candidates raw)) [
        | inl e ↦ rw e nothing
        | inr (infos, e) ↦ rw e (
            delete_confirmed-Deletes (IsOrphan r candidates true) _ _ s (
              All-imp (IsOrphan r candidates true) (confirmed_ids env.sha256_hex s.reg infos)
                (λ n c. (
                  refl,
                  (
                    infos,
                    sym q ∙ e,
                    subst (λ g. IsConfirmed env.sha256_hex g candidates infos n) same c,
                  ),
                ))
                (keep-IsConfirmed env.sha256_hex s.reg candidates infos
                  (read_infos-All candidates candidates raw (All-has candidates) e))))
      ]

-- Whatever is deleted was a candidate, the scan was complete, and the add-on's answer about the
-- candidates, in the state in which it was asked, has an element about the note that matches the
-- note's registry record.
pub confirm_and_delete-Deletes :
    (env : Env) (candidates : List ℕ) (complete : Bool) (r : Runner)
    → Adds
        (Deletes (IsOrphan env r candidates complete))
        r.history
        (confirm_and_delete env candidates complete r).1.history
unfolding confirm_and_delete notes_info ask
confirm_and_delete-Deletes env candidates false r = nothing
confirm_and_delete-Deletes env [] true r = nothing
confirm_and_delete-Deletes env (n ∷ ids) true r =
    Adds-trans (request (Call.notes_info (n ∷ ids)) tt nothing) (
      after_query-Deletes env (n ∷ ids) delete_suppressed (env.peer.notes_info r.history (n ∷ ids))
        r (record r { history = Call.notes_info (n ∷ ids) ∷ r.history }) refl refl)
