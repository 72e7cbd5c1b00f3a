-- ===== src/Relations/Create.antt =====
-- relations.rs, `declare`, `ensure` and `ensure_labelled`: what they make is well formed.
use zebulon_lang.Prelude.{
  ℕ, zero, suc, ◌+◌, ◌-◌, ◌≡◌, refl, sym, Option, none, some, List, [], ◌∷◌, ◌++◌, arith, get_elem?,
  length, replicate, leb, Bool-cases, Option-cases, ◌⊎◌, inl, inr, subst, ok, err,
  get_elem?-set_cases,
}
use zebulon_lang.Errors.{Error, Answer}
use zebulon_lang.Relations.Table.{Cardinality, Table, Relations, default_table, no_rows, mem}
use zebulon_lang.Relations.Rows.{IsPaired}
use zebulon_lang.Relations.Steps.{IsBounded, IsTable, IsRelations}
use zebulon_lang.Relations.Query.{
  claim, claim_at, grown, label_new, label_known, ensure, ensure_labelled, declare, label_index,
}

no_rows-IsPaired : (session : ℕ) → IsPaired session no_rows
unfolding mem
no_rows-IsPaired session = record {
  mirror = λ l r hl hr. refl;
  forward_nodup = λ k. tt;
  reverse_nodup = λ k. tt;
  forward_issued = λ k r h. cc h;
  reverse_issued = λ k l h. cc h;
}

-- A table with no rows, whatever its cardinality is.
pub new-IsTable : (session : ℕ) (t : Table) → t.rows ≡ no_rows → IsTable session t
new-IsTable session t e = record {
  paired = subst (IsPaired session) (sym e) (no_rows-IsPaired session);
  bounded = λ c h.
      subst (IsBounded c) (sym e)
        (record { left = λ one k. omega arith; right = λ one k. omega arith });
  undeclared = λ h. e;
}

replicate-IsTable :
    (session : ℕ) (n i : ℕ) (t : Table)
    → get_elem? (replicate n default_table) i ≡ some t
    → IsTable session t
replicate-IsTable session zero i t e = cc
replicate-IsTable session (suc n) zero t e =
    subst (IsTable session) (cc e) (new-IsTable session default_table refl)
replicate-IsTable session (suc n) (suc i) t e = replicate-IsTable session n i t e

append-IsTable :
    (session : ℕ) (ts us : List Table)
    → ((i : ℕ) (t : Table) → get_elem? ts i ≡ some t → IsTable session t)
    → ((i : ℕ) (t : Table) → get_elem? us i ≡ some t → IsTable session t)
    → (i : ℕ) (t : Table) → get_elem? (ts ++ us) i ≡ some t
    → IsTable session t
append-IsTable session [] us h k i t e = k i t e
append-IsTable session (x ∷ ts) us h k zero t e = h zero t e
append-IsTable session (x ∷ ts) us h k (suc i) t e =
    append-IsTable session ts us (λ j u e'. h (suc j) u e') k i t e

grown-IsTable :
    (session index : ℕ) (ts : List Table)
    → ((i : ℕ) (t : Table) → get_elem? ts i ≡ some t → IsTable session t)
    → (i : ℕ) (t : Table) → get_elem? (grown index ts) i ≡ some t
    → IsTable session t
unfolding grown
grown-IsTable session index ts h = elim (Bool-cases (leb (length ts) index)) [
  | inl short ↦ rw short (
      append-IsTable session ts (replicate (index + 1 - length ts) default_table) h
        (replicate-IsTable session (index + 1 - length ts)))
  | inr long ↦ rw long h
]

claim-IsTable :
    (session : ℕ) (declared : Option Cardinality) (c : Cardinality) (t : Table)
    → t.cardinality ≡ declared
    → IsTable session t
    → IsTable session (claim declared c t).1
unfolding claim
claim-IsTable session none c t e h =
    new-IsTable session (record t { cardinality = some c }) (h.undeclared e)
claim-IsTable session (some existing) c t e h = h

claim_at-IsRelations :
    (session index : ℕ) (here : Option Table) (c : Cardinality) (s : Relations)
    → get_elem? s.tables index ≡ here
    → IsRelations session s
    → IsRelations session (claim_at here index c s).1
unfolding claim_at
claim_at-IsRelations session index none c s e v = v
claim_at-IsRelations session index (some t) c s e v = record {
  each = λ i x e'. elim (get_elem?-set_cases s.tables index i (claim t.cardinality c t).1 e') [
    | inl new ↦
        subst (IsTable session) new
          (claim-IsTable session t.cardinality c t refl (v.each index t e))
    | inr old ↦ v.each i x old
  ];
}

pub ensure-IsRelations :
    (session index : ℕ) (c : Cardinality) (s : Relations)
    → IsRelations session s
    → IsRelations session (ensure index c s).1
unfolding ensure
ensure-IsRelations session index c s v =
    let bigger : Relations = record s { tables = grown index s.tables } in
    claim_at-IsRelations session index (get_elem? (grown index s.tables) index) c bigger refl
      (record { each = grown-IsTable session index s.tables v.each })

pub declare-IsRelations :
    (session : ℕ) (c : Cardinality) (s : Relations)
    → IsRelations session s
    → IsRelations session (declare c s).1
unfolding declare
declare-IsRelations session c s v = record {
  each =
      append-IsTable session s.tables (record default_table { cardinality = some c } ∷ []) v.each
        (λ i t e. one_table i t e);
}
  where
    one_table :
        (i : ℕ) (t : Table)
        → get_elem? (record default_table { cardinality = some c } ∷ []) i ≡ some t
        → IsTable session t
    one_table zero t e =
        subst (IsTable session) (cc e)
          (new-IsTable session (record default_table { cardinality = some c }) refl)
    one_table (suc i) t e = cc e

with_labels-IsRelations :
    (session : ℕ) (s : Relations) (labels : List ((ℕ × ℕ) × ℕ))
    → IsRelations session s
    → IsRelations session (record s { labelled = labels })
with_labels-IsRelations session s labels v = record { each = v.each }

answered : (answer : Answer Unit) → ((e : Error) × (answer ≡ err e)) ⊎ (answer ≡ ok tt)
answered (ok _) = inr refl
answered (err e) = inl (e, refl)

pub ensure_labelled-IsRelations :
    (session relation label : ℕ) (c : Cardinality) (s : Relations)
    → IsRelations session s
    → IsRelations session (ensure_labelled relation label c s).1
unfolding ensure_labelled label_new label_known
ensure_labelled-IsRelations session relation label c s v =
    let made = ensure-IsRelations session (length s.tables) c s v in
    elim (Option-cases (label_index s.labelled relation label)) [
      | inl new ↦ elim (answered (ensure (length s.tables) c s).0) [
        | inl (e, refused) ↦ rw (new, ensure_labelled, refused, label_new) made
        | inr taken ↦
            rw (new, ensure_labelled, taken, label_new)
              (with_labels-IsRelations session (ensure (length s.tables) c s).1 _ made)
      ]
      | inr (index, old) ↦ elim (answered (ensure index c s).0) [
        | inl (e, refused) ↦
            rw (old, ensure_labelled, refused, label_known) (ensure-IsRelations session index c s v)
        | inr taken ↦
            rw (old, ensure_labelled, taken, label_known) (ensure-IsRelations session index c s v)
      ]
    ]
