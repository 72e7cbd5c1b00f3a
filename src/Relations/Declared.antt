-- ===== src/Relations/Declared.antt =====
-- relations.rs, `declare`, `ensure` and `ensure_labelled`: they leave all rows, declarations and deltas
-- as they are.
use zebulon_lang.Prelude.{
  Result-cases, ℕ, zero, suc, ◌+◌, ◌-◌, ◌≡◌, refl, sym, ap, ◌∙◌, Option, false, none, some, List,
  [], ◌∷◌, ◌++◌, map, get_elem?, set as set_elem, subst, Option-cases, Bool-cases, inl, inr, ◌⊎◌,
  ◌==◌, ==_iff, get_elem?-set_self, get_elem?-set_ne, set-get_elem?, replicate, length, leb,
}
use zebulon_lang.Relations.Table.{Cardinality, Table, Relations, default_table, no_rows}
use zebulon_lang.Relations.Query.{
  grown, claim, claim_at, ensure, ensure_labelled, label_new, label_known, declare, label_index,
}
use zebulon_lang.Relations.Undo.{cleared, content}
use zebulon_lang.Relations.Over.{rows_of, cardinality_of, Extends, Extends-refl, Extends-trans}

rows_of-cleared :
    (ts : List Table) (i : ℕ) → rows_of (get_elem? (map cleared ts) i) ≡ rows_of (get_elem? ts i)
rows_of-cleared [] i = refl
rows_of-cleared (t ∷ ts) zero = refl
rows_of-cleared (t ∷ ts) (suc i) = rows_of-cleared ts i

cardinality_of-cleared :
    (ts : List Table) (i : ℕ)
    → cardinality_of (get_elem? (map cleared ts) i) ≡ cardinality_of (get_elem? ts i)
cardinality_of-cleared [] i = refl
cardinality_of-cleared (t ∷ ts) zero = refl
cardinality_of-cleared (t ∷ ts) (suc i) = cardinality_of-cleared ts i

pub Extends-content :
    (s u : Relations) → Extends s.tables u.tables → Extends (content s) (content u)
Extends-content s u e = record {
  rows = λ i. rows_of-cleared u.tables i ∙ e.rows i ∙ sym (rows_of-cleared s.tables i);
  cardinalities = λ i. elim (e.cardinalities i) [
    | inl new ↦ inl (cardinality_of-cleared s.tables i ∙ new)
    | inr kept ↦
        inr (cardinality_of-cleared u.tables i ∙ kept ∙ sym (cardinality_of-cleared s.tables i))
  ];
}

pub Extends-tables : (s u : Relations) → Extends (content s) (content u) → Extends s.tables u.tables
Extends-tables s u e = record {
  rows = λ i. sym (rows_of-cleared u.tables i) ∙ e.rows i ∙ rows_of-cleared s.tables i;
  cardinalities = λ i. elim (e.cardinalities i) [
    | inl new ↦ inl (sym (cardinality_of-cleared s.tables i) ∙ new)
    | inr kept ↦
        inr (sym (cardinality_of-cleared u.tables i) ∙ kept ∙ cardinality_of-cleared s.tables i)
  ];
}

Extends-append :
    (ts us : List Table) → ((i : ℕ) → rows_of (get_elem? us i) ≡ no_rows) → Extends ts (ts ++ us)
Extends-append [] us bare = record { rows = bare; cardinalities = λ i. inl refl }
Extends-append (t ∷ ts) us bare =
    let rest = Extends-append ts us bare in
    record { rows = rows_at rest; cardinalities = cardinalities_at rest }
  where
    rows_at :
        Extends ts (ts ++ us)
        → (i : ℕ) → rows_of (get_elem? (t ∷ ts ++ us) i) ≡ rows_of (get_elem? (t ∷ ts) i)
    rows_at rest zero = refl
    rows_at rest (suc i) = rest.rows i

    cardinalities_at :
        Extends ts (ts ++ us)
        → (i : ℕ)
        → (cardinality_of (get_elem? (t ∷ ts) i) ≡ none)
          ⊎ (cardinality_of (get_elem? (t ∷ ts ++ us) i) ≡ cardinality_of (get_elem? (t ∷ ts) i))
    cardinalities_at rest zero = inr refl
    cardinalities_at rest (suc i) = rest.cardinalities i

replicate_bare : (n i : ℕ) → rows_of (get_elem? (replicate n default_table) i) ≡ no_rows
replicate_bare zero i = refl
replicate_bare (suc n) zero = refl
replicate_bare (suc n) (suc i) = replicate_bare n i

grown-Extends : (index : ℕ) (ts : List Table) → Extends ts (grown index ts)
unfolding grown
grown-Extends index ts = elim (Bool-cases (leb (length ts) index)) [
  | inl short ↦ rw short (Extends-append ts _ (replicate_bare (index + 1 - length ts)))
  | inr long ↦ rw long (Extends-refl ts)
]

-- A first declaration of a table that is there.
set-Extends :
    (ts : List Table) (index : ℕ) (t x : Table)
    → get_elem? ts index ≡ some t
    → x.rows ≡ t.rows
    → t.cardinality ≡ none
    → Extends ts (set_elem ts index x)
set-Extends ts index t x here same undeclared =
    let now = get_elem?-set_self ts index x here in
    let apart : (i : ℕ) → index == i ≡ false → get_elem? (set_elem ts index x) i ≡ get_elem? ts i =
      λ i ne. get_elem?-set_ne ts index i x (λ at. cc (ne, (==_iff index i).1 at)) in
    record {
      rows = λ i. elim (Bool-cases (index == i)) [
        | inl at ↦
            subst (λ j. rows_of (get_elem? (set_elem ts index x) j) ≡ rows_of (get_elem? ts j))
              ((==_iff index i).0 at) (ap rows_of now ∙ same ∙ sym (ap rows_of here))
        | inr other ↦ ap rows_of (apart i other)
      ];
      cardinalities = λ i. elim (Bool-cases (index == i)) [
        | inl at ↦ inl (
            subst (λ j. cardinality_of (get_elem? ts j) ≡ none) ((==_iff index i).0 at)
              (ap cardinality_of here ∙ undeclared))
        | inr other ↦ inr (ap cardinality_of (apart i other))
      ];
    }

claim_at-Extends :
    (here : Option Table) (index : ℕ) (c : Cardinality) (s : Relations)
    → get_elem? s.tables index ≡ here
    → Extends s.tables (claim_at here index c s).1.tables
unfolding claim_at claim
claim_at-Extends none index c s e = Extends-refl s.tables
claim_at-Extends (some t) index c s e = claimed t.cardinality refl
  where
    claimed :
        (d : Option Cardinality)
        → t.cardinality ≡ d
        → Extends s.tables (set_elem s.tables index (claim d c t).1)
    claimed none undeclared =
        set-Extends s.tables index t (record t { cardinality = some c }) e refl undeclared
    claimed (some existing) declared =
        subst (Extends s.tables) (sym (set-get_elem? s.tables index t e)) (Extends-refl s.tables)

-- A change of the tables alone: no delta, and nothing but more tables and declarations.
pub record Declares (s u : Relations) : Type 0 where
  pub more : Extends s.tables u.tables
  pub switch : u.journalling ≡ s.journalling
  pub written : u.journal ≡ s.journal

claim_at-Declares :
    (here : Option Table) (index : ℕ) (c : Cardinality) (s : Relations)
    → get_elem? s.tables index ≡ here
    → Declares s (claim_at here index c s).1
unfolding claim_at
claim_at-Declares none index c s e = record {
  more = claim_at-Extends none index c s e;
  switch = refl;
  written = refl;
}
claim_at-Declares (some t) index c s e = record {
  more = claim_at-Extends (some t) index c s e;
  switch = refl;
  written = refl;
}

pub ensure-Declares :
    (index : ℕ) (c : Cardinality) (s : Relations) → Declares s (ensure index c s).1
unfolding ensure
ensure-Declares index c s =
    let bigger : Relations = record s { tables = grown index s.tables } in
    let a = claim_at-Declares (get_elem? (grown index s.tables) index) index c bigger refl in
    record {
      more = Extends-trans (grown-Extends index s.tables) a.more;
      switch = a.switch;
      written = a.written;
    }

-- With the labels of the tables changed besides.
labelled-Declares :
    (s u : Relations) (labels : List ((ℕ × ℕ) × ℕ))
    → Declares s u
    → Declares s (record u { labelled = labels })
labelled-Declares s u labels d = record { more = d.more; switch = d.switch; written = d.written }

pub declare-Declares : (c : Cardinality) (s : Relations) → Declares s (declare c s).1
unfolding declare
declare-Declares c s = record {
  more = Extends-append s.tables (record default_table { cardinality = some c } ∷ []) bare;
  switch = refl;
  written = refl;
}
  where
    bare :
        (i : ℕ)
        → rows_of (get_elem? (record default_table { cardinality = some c } ∷ []) i) ≡ no_rows
    bare zero = refl
    bare (suc i) = refl

pub ensure_labelled-Declares :
    (relation label : ℕ) (c : Cardinality) (s : Relations)
    → Declares s (ensure_labelled relation label c s).1
unfolding ensure_labelled label_new label_known
ensure_labelled-Declares relation label c s =
    elim (Option-cases (label_index s.labelled relation label)) [
      | inl new ↦
          let made = ensure-Declares (length s.tables) c s in
          elim (Result-cases (ensure (length s.tables) c s).0) [
            | inl (e, refused) ↦ rw (new, ensure_labelled, refused, label_new) made
            | inr (done, taken) ↦
                rw (new, ensure_labelled, taken, label_new)
                  (labelled-Declares s (ensure (length s.tables) c s).1 _ made)
          ]
      | inr (index, old) ↦
          let made = ensure-Declares index c s in
          elim (Result-cases (ensure index c s).0) [
            | inl (e, refused) ↦ rw (old, ensure_labelled, refused, label_known) made
            | inr (done, taken) ↦ rw (old, ensure_labelled, taken, label_known) made
          ]
    ]
