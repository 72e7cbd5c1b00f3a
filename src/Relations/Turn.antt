-- ===== src/Relations/Turn.antt =====
-- relations.rs: a turn, as the calls that it makes in sequence, and its undoing.
use zebulon_lang.Prelude.{
  ℕ, suc, ◌+◌, ◌≡◌, refl, sym, ap, ◌∙◌, true, false, ◌&&◌, some, List, [], ◌∷◌, ◌++◌, map, length,
  arith, ◌⊎◌, inl, inr, if◌then◌else◌, Bool-cases, Option-cases, ok, ltb, subst, Result, err,
  get_elem?,
}
use zebulon_lang.Prelude.Exec.{Method, continue}
use zebulon_lang.Errors.{Error, ObjectRef, handle, ref_eq_iff, IsIssued, invalid_argument}
use zebulon_lang.Relations.Table.{Cardinality, Table, Relations, mem}
use zebulon_lang.Relations.Rows.{holds, AllIssued}
use zebulon_lang.Relations.Undo.{Found, content, contains_found, unset_absent_lem}
use zebulon_lang.Relations.Steps.{IsTable, IsRelations, Step, Step-refl, Step-trans, unset-Step}
use zebulon_lang.Relations.Set.{set_lem, set_held_lem, set_full_lem}
use zebulon_lang.Relations.Query.{cardinality, contains, table}
use zebulon_lang.Relations.Update.{
  set, unset, forget, reserve_journal, journal_limit, rows_naming, unset_all,
}
use zebulon_lang.Relations.Revert.{revert, take_journal}

-- A change of rows.
pub data Call : Type 0 where
  set_row : ℕ → ObjectRef → ObjectRef → Call
  unset_row : ℕ → ObjectRef → ObjectRef → Call
  forget_entity : ObjectRef → Call

-- The references that a call names are ones of the session.
abbrev pub IsCall : ℕ → Call → Type 0
IsCall session (set_row relation l r) = IsIssued session l × IsIssued session r
IsCall session (unset_row relation l r) = IsIssued session l × IsIssued session r
IsCall session (forget_entity e) = IsIssued session e

abbrev pub AreCalls : ℕ → List Call → Type 0
AreCalls session [] = Unit
AreCalls session (c ∷ cs) = IsCall session c × AreCalls session cs

-- The state after a call, whether it succeeded or not.
abbrev pub after : Call → Relations → Relations
after (set_row relation l r) s = (set relation l r s).1
after (unset_row relation l r) s = (unset relation l r s).1
after (forget_entity e) s = (forget e s).1

unfoldable pub run : List Call → Relations → Relations
run [] s = s
run (c ∷ cs) s = run cs (after c s)

-- A relation is declared, or every call on it fails.
pub Found-or_invalid :
    (s : Relations) (relation : ℕ)
    → ((c : Cardinality) × (t : Table) × Found s relation c t)
      ⊎ (table s relation ≡ err invalid_argument)
unfolding table
Found-or_invalid s relation = elim (Option-cases (get_elem? s.tables relation)) [
  | inl out_of_range ↦ inr (rw out_of_range refl)
  | inr (t, e) ↦ elim (Option-cases t.cardinality) [
    | inl undeclared ↦ inr (rw e (rw undeclared refl))
    | inr (c, ec) ↦ inl (c, t, record { here = e; declared = ec })
  ]
]

module _ {session : ℕ} {s : Relations} (v : IsRelations session s) {l r : ObjectRef}
    (hl : IsIssued session l) (hr : IsIssued session r) (relation : ℕ) where
  pub Step-unset : Step session s (unset relation l r s).1
  unfolding unset contains reserve_journal
  Step-unset = elim (Found-or_invalid s relation) [
    | inr invalid ↦ rw invalid (Step-refl v)
    | inl (c, t, f) ↦ elim (Bool-cases (holds t.rows l r)) [
      | inl held ↦ elim (Bool-cases (s.journalling && ltb journal_limit (length s.journal + 1))) [
        | inl full ↦ rw (contains_found f l r, held, full) (Step-refl v)
        | inr room ↦
            let (u, ran, step, _, _) = unset-Step v f hl hr held room in
            subst (λ x. Step session s x.1) (sym ran) step
      ]
      | inr absent ↦
          subst (λ x. Step session s x.1) (sym (unset_absent_lem f l r absent)) (Step-refl v)
    ]
  ]

  pub Step-set : Step session s (set relation l r s).1
  unfolding set cardinality contains
  Step-set = elim (Found-or_invalid s relation) [
    | inr invalid ↦ rw invalid (Step-refl v)
    | inl (c, t, f) ↦
        elim (Bool-cases (s.journalling && ltb journal_limit (length s.journal + 3))) [
          | inr room ↦
              let (u, tu, ran, step, _, _) = set_lem v f hl hr room in
              subst (λ x. Step session s x.1) (sym ran) step
          | inl full ↦ elim (Bool-cases (holds t.rows l r)) [
            | inl held ↦
                subst (λ x. Step session s x.1) (sym (set_held_lem v f hl hr held)) (Step-refl v)
            | inr absent ↦
                subst (λ x. Step session s x.1) (sym (set_full_lem v f hl hr absent full))
                  (Step-refl v)
          ]
        ]
  ]

-- Every row of the list names references of the session.
abbrev AreRows : ℕ → List (ℕ × ObjectRef × ObjectRef) → Type 0
AreRows session [] = Unit
AreRows session ((i, l, r) ∷ rest) = IsIssued session l × IsIssued session r × AreRows session rest

AreRows-append :
    (session : ℕ) (xs ys : List (ℕ × ObjectRef × ObjectRef))
    → AreRows session xs
    → AreRows session ys
    → AreRows session (xs ++ ys)
AreRows-append session [] ys p q = q
AreRows-append session ((i, l, r) ∷ xs) ys p q = (p.0, p.1, AreRows-append session xs ys p.2 q)

module _ {session : ℕ} {entity : ObjectRef} (h : IsIssued session entity) where
  AreRows-rights :
      (i : ℕ) (rights : List ObjectRef)
      → AllIssued session rights
      → AreRows session (map (λ right. (i, entity, right)) rights)
  unfolding mem
  AreRows-rights i [] all = tt
  AreRows-rights i (r ∷ rs) all =
      (h, all r (ground (arith, ref_eq_iff r r)), AreRows-rights i rs (λ q e. all q (ground arith)))

  AreRows-lefts :
      (i : ℕ) (lefts : List ObjectRef)
      → AllIssued session lefts
      → AreRows session (map (λ left. (i, left, entity)) lefts)
  unfolding mem
  AreRows-lefts i [] all = tt
  AreRows-lefts i (l ∷ ls) all =
      (all l (ground (arith, ref_eq_iff l l)), h, AreRows-lefts i ls (λ q e. all q (ground arith)))

  AreRows-naming :
      (i : ℕ) (ts : List Table)
      → ((j : ℕ) (t : Table) → get_elem? ts j ≡ some t → IsTable session t)
      → AreRows session (rows_naming entity i ts)
  unfolding rows_naming
  AreRows-naming i [] each = tt
  AreRows-naming i (t ∷ ts) each =
      let paired = (each 0 t refl).paired in
      AreRows-append session _ _
        (AreRows-rights i (t.forward (handle entity)) (paired.forward_issued (handle entity)))
        (AreRows-append session _ _
          (AreRows-lefts i (t.reverse (handle entity)) (paired.reverse_issued (handle entity)))
          (AreRows-naming (suc i) ts (λ j u e. each (suc j) u e)))

-- What follows a call in a `do` block runs in the state that the call left, or not at all.
Step-continue {ℓ κ} :
    {A : Type ℓ} {B : Type κ} {session : ℕ} {s u : Relations} (x : Result Error A)
    (k : A → Method Relations Error B)
    → Step session s u
    → ((a : A) → Step session u (k a u).1)
    → Step session s (continue x k u).1
Step-continue (ok a) k first then_step = Step-trans first (then_step a)
Step-continue (err e) k first then_step = first

Step-unset_all :
    {session : ℕ} (rows : List (ℕ × ObjectRef × ObjectRef)) (removed : ℕ) {s : Relations}
    → IsRelations session s
    → AreRows session rows
    → Step session s (unset_all rows removed s).1
unfolding unset_all
Step-unset_all [] removed v a = Step-refl v
Step-unset_all {session} ((i, l, r) ∷ rest) removed {s} v a =
    let step = Step-unset v a.0 a.1 i in
    Step-continue (unset i l r s).0 _ step
      (λ done. Step-unset_all rest (if done then suc removed else removed) step.valid a.2)

pub Step-forget :
    {session : ℕ} {s : Relations} {entity : ObjectRef}
    → IsRelations session s
    → IsIssued session entity
    → Step session s (forget entity s).1
unfolding forget
Step-forget {session} {s} v h = Step-unset_all _ 0 v (AreRows-naming h 0 s.tables v.each)

pub Step-after :
    {session : ℕ} {s : Relations} (c : Call)
    → IsRelations session s
    → IsCall session c
    → Step session s (after c s)
Step-after (set_row relation l r) v h = Step-set v h.0 h.1 relation
Step-after (unset_row relation l r) v h = Step-unset v h.0 h.1 relation
Step-after (forget_entity e) v h = Step-forget v h

pub Step-run :
    {session : ℕ} (cs : List Call) {s : Relations}
    → IsRelations session s
    → AreCalls session cs
    → Step session s (run cs s)
unfolding run
Step-run [] v h = Step-refl v
Step-run (c ∷ cs) v h =
    let step = Step-after c v h.0 in Step-trans step (Step-run cs step.valid h.1)

-- Whatever rows a turn changed by `set`, `unset` and `forget`, with references of the session, on
-- well-formed relations while the journal was on and empty, and whether each call succeeded or failed, taking the journal and
-- reverting it gives the same tables, each with its cardinality and both its maps, each list in its
-- order, and the journal is on again. No call of the turn declares a table. Cached chains are left
-- out of the comparison.
pub revert-run :
    {session : ℕ} {s : Relations} (cs : List Call)
    → IsRelations session s
    → AreCalls session cs
    → s.journalling ≡ true
    → s.journal ≡ []
    → let (deltas, u) = take_journal (run cs s) in
      (content (revert deltas u).1 ≡ content s) × ((revert deltas u).1.journalling ≡ true)
unfolding take_journal revert
revert-run {session} {s} cs v h on empty =
    let step = Step-run cs v h in
    let (ds, e, back, _) = step.undo on in
    let all : (run cs s).journal ≡ ds = e ∙ ap (λ j. j ++ ds) empty in
    rw all (
      (back.lead_back (record (run cs s) { journal = []; journalling = false }) refl refl).0,
      step.switch ∙ on,
    )
