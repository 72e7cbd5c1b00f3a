-- ===== src/Relations/Over.antt =====
-- relations.rs: what a list of deltas does in a state that has more tables than the one it leads back
-- to. A turn may declare tables, and `revert` leaves them.
use zebulon_lang.Prelude.{
  ◌⊎◌, ℕ, ◌≡◌, ◌≢◌, refl, sym, ap, ◌∙◌, Option, true, false, none, some, List, [], ◌∷◌, ◌++◌,
  get_elem?, set as set_elem, arith, subst, Option-cases, Bool-cases, inl, inr, ◌==◌, ==_iff,
  get_elem?-set_self, get_elem?-set_ne, get_elem?-map, get_elem?-unmap, map-set,
}
use zebulon_lang.Errors.{ObjectRef, handle, ref_eq_iff, IsIssued}
use zebulon_lang.Relations.Table.{
  Cardinality, Delta, Rows, Table, Relations, no_rows, unlink, link, reposition, position,
}
use zebulon_lang.Relations.Rows.{
  holds, IsPaired, holds-unlink, holds-link, unlink-link, reposition-link-unlink, link-IsPaired,
}
use zebulon_lang.Relations.Update.{change_rows, removal, addition}
use zebulon_lang.Relations.Revert.{revert_one, revert_all}
use zebulon_lang.Relations.Undo.{
  Found, with_rows, cleared, content, content-change_rows, change_rows_found, unset_quiet,
  revert_one-removal, revert_all-append,
}

-- The rows that stand at an index, where there may be no table.
abbrev pub rows_of : Option Table → Rows
rows_of none = no_rows
rows_of (some t) = t.rows

abbrev pub cardinality_of : Option Table → Option Cardinality
cardinality_of none = none
cardinality_of (some t) = t.cardinality

-- The same rows at each index, and what is declared stays so: more tables, or more declared ones.
pub record Extends (ts us : List Table) : Type 0 where
  pub rows : (i : ℕ) → rows_of (get_elem? us i) ≡ rows_of (get_elem? ts i)
  pub cardinalities :
      (i : ℕ)
      → (cardinality_of (get_elem? ts i) ≡ none)
        ⊎ (cardinality_of (get_elem? us i) ≡ cardinality_of (get_elem? ts i))

pub Extends-refl : (ts : List Table) → Extends ts ts
Extends-refl ts = record { rows = λ i. refl; cardinalities = λ i. inr refl }

pub Extends-trans : {ts us vs : List Table} → Extends ts us → Extends us vs → Extends ts vs
Extends-trans a b = record {
  rows = λ i. b.rows i ∙ a.rows i;
  cardinalities = λ i. elim (a.cardinalities i) [
    | inl new ↦ inl new
    | inr kept ↦ elim (b.cardinalities i) [
      | inl new ↦ inl (sym kept ∙ new)
      | inr kept' ↦ inr (kept' ∙ kept)
    ]
  ];
}

-- Read back from the newest, the deltas take any state that extends `u` to one that extends `s`.
pub record Over (deltas : List Delta) (u s : Relations) : Type 0 where
  pub lead_over :
      (v : Relations)
      → v.journalling ≡ false
      → Extends (content u) (content v)
      → Extends (content s) (content (revert_all deltas v).1)
        × ((revert_all deltas v).1.journalling ≡ false)

-- A change of tables that writes no delta.
pub Over-nil : {u s : Relations} → Extends (content s) (content u) → Over [] u s
unfolding revert_all
Over-nil grows = record { lead_over = λ v off e. (Extends-trans grows e, off) }

pub Over-append :
    (ds es : List Delta) {u m s : Relations} → Over es u m → Over ds m s → Over (ds ++ es) u s
Over-append ds es back back' = record {
  lead_over = λ v off e.
      let (same, off') = back.lead_over v off e in
      rw (revert_all-append ds es v) (back'.lead_over (revert_all es v).1 off' same);
}

-- The table that a change left, in any state that extends the one that the change left.
module _ {s : Relations} {relation : ℕ} {c : Cardinality} {t : Table} (f : Found s relation c t)
    (g : Rows → Rows) (v : Relations)
    (e : Extends (content (change_rows relation g s)) (content v)) where
  changed_at :
      get_elem? (content (change_rows relation g s)) relation ≡ some (with_rows (g t.rows) t)
  changed_at = rw (content-change_rows f g) (
      get_elem?-set_self (content s) relation (with_rows (g t.rows) t)
        (get_elem?-map cleared s.tables relation f.here))

  Found-over : (tv : Table) × Found v relation c tv × (tv.rows ≡ g t.rows)
  Found-over =
      let declared : cardinality_of (get_elem? (content v) relation) ≡ some c =
        elim (e.cardinalities relation) [
          | inl new ↦ absurd (cc (ap cardinality_of changed_at, new, f.declared))
          | inr kept ↦ kept ∙ ap cardinality_of changed_at ∙ f.declared
        ] in
      elim (Option-cases (get_elem? (content v) relation)) [
        | inl gone ↦ absurd (cc (ap cardinality_of gone, declared))
        | inr (x, at) ↦
            let (tv, here, same) = get_elem?-unmap cleared v.tables relation at in
            (
              tv,
              record {
                here = here;
                declared =
                    ap (λ (y : Table). y.cardinality) same ∙ sym (ap cardinality_of at) ∙ declared;
              },
              ap (λ (y : Table). y.rows) same
                  ∙ sym (ap rows_of at)
                  ∙ e.rows relation
                  ∙ ap rows_of changed_at,
            )
      ]

  -- A second change that undoes the first one's rows gives the rows back.
  rows_undone :
      (tv x : Table)
      → Found v relation c tv
      → x.rows ≡ t.rows
      → x.cardinality ≡ tv.cardinality
      → Extends (content s) (set_elem (content v) relation x)
  rows_undone tv x fv same kind =
      let at_s : get_elem? (content s) relation ≡ some (cleared t) =
        get_elem?-map cleared s.tables relation f.here in
      let at_v : get_elem? (content v) relation ≡ some (cleared tv) =
        get_elem?-map cleared v.tables relation fv.here in
      let now : get_elem? (set_elem (content v) relation x) relation ≡ some x =
        get_elem?-set_self (content v) relation x at_v in
      let apart : (i : ℕ)
          → relation ≢ i
          → get_elem? (set_elem (content v) relation x) i ≡ get_elem? (content v) i =
        λ i ne. get_elem?-set_ne (content v) relation i x ne in
      let was : (i : ℕ)
          → relation ≢ i
          → get_elem? (content (change_rows relation g s)) i ≡ get_elem? (content s) i =
        λ i ne.
          ap (λ (ts : List Table). get_elem? ts i) (content-change_rows f g)
          ∙ get_elem?-set_ne (content s) relation i (with_rows (g t.rows) t) ne in
      let differ : (i : ℕ) → relation == i ≡ false → relation ≢ i =
        λ i ne same'. cc (ne, (==_iff relation i).1 same') in
      record {
        rows = λ i. elim (Bool-cases (relation == i)) [
          | inl here ↦
              subst
                (λ j.
                  rows_of (get_elem? (set_elem (content v) relation x) j)
                  ≡ rows_of (get_elem? (content s) j))
                ((==_iff relation i).0 here) (ap rows_of now ∙ same ∙ sym (ap rows_of at_s))
          | inr other ↦
              ap rows_of (apart i (differ i other)) ∙ e.rows i ∙ ap rows_of (was i (differ i other))
        ];
        cardinalities = λ i. elim (Bool-cases (relation == i)) [
          | inl here ↦ inr (
              subst
                (λ j.
                  cardinality_of (get_elem? (set_elem (content v) relation x) j)
                  ≡ cardinality_of (get_elem? (content s) j))
                ((==_iff relation i).0 here)
                (ap cardinality_of now
                  ∙ kind
                  ∙ fv.declared
                  ∙ sym f.declared
                  ∙ sym (ap cardinality_of at_s)))
          | inr other ↦
              let ne = differ i other in
              elim (e.cardinalities i) [
                | inl new ↦ inl (sym (ap cardinality_of (was i ne)) ∙ new)
                | inr kept ↦
                    inr (ap cardinality_of (apart i ne) ∙ kept ∙ ap cardinality_of (was i ne))
              ]
        ];
      }

module _ {session : ℕ} {s : Relations} {relation : ℕ} {c : Cardinality} {t : Table}
    (f : Found s relation c t) (p : IsPaired session t.rows) {l r : ObjectRef}
    (hl : IsIssued session l) (hr : IsIssued session r) (u : Relations) where
  -- The delta of an addition leads back over it.
  pub Over-addition :
      holds t.rows l r ≡ false
      → content u ≡ content (change_rows relation (link l r) s)
      → Over (addition relation l r ∷ []) u s
  unfolding revert_all revert_one
  Over-addition absent eu = record {
    lead_over = λ v off over.
        let e : Extends (content (change_rows relation (link l r) s)) (content v) =
          subst (λ ts. Extends ts (content v)) eu over in
        let (tv, fv, er) = Found-over f (link l r) v e in
        let pv : IsPaired session tv.rows = rw er (link-IsPaired hl hr t.rows absent p) in
        let held : holds tv.rows l r ≡ true =
          rw er (holds-link hl hr t.rows hl hr ∙ ground (arith, ref_eq_iff l l, ref_eq_iff r r)) in
        rw (unset_quiet fv pv hl hr off held) (
          subst (Extends (content s)) (sym (content-change_rows fv (unlink l r))) (
              rows_undone f (link l r) v e tv (with_rows (unlink l r tv.rows) tv) fv
                (ap (unlink l r) er ∙ unlink-link hl hr t.rows absent p) refl),
          ap (λ (x : Relations). x.journalling) (change_rows_found fv (unlink l r)) ∙ off,
        );
  }

  -- The delta of a removal leads back over it.
  pub Over-removal :
      (fp rp : ℕ)
      → holds t.rows l r ≡ true
      → position r (t.forward (handle l)) ≡ some fp
      → position l (t.reverse (handle r)) ≡ some rp
      → content u ≡ content (change_rows relation (unlink l r) s)
      → Over (removal relation l r fp rp ∷ []) u s
  unfolding revert_all
  Over-removal fp rp held efp erp eu = record {
    lead_over = λ v off over.
        let e : Extends (content (change_rows relation (unlink l r) s)) (content v) =
          subst (λ ts. Extends ts (content v)) eu over in
        let (tv, fv, er) = Found-over f (unlink l r) v e in
        let absent : holds tv.rows l r ≡ false =
          rw er
            (holds-unlink hl hr t.rows hl hr ∙ ground (arith, ref_eq_iff l l, ref_eq_iff r r)) in
        let d = removal relation l r fp rp in
        let after = revert_one-removal fv l r fp rp absent in
        (
          subst (Extends (content s))
              (sym (
                ap content after
                ∙ map-set cleared v.tables relation
                    (with_rows (reposition d (link l r tv.rows)) tv)))
              (rows_undone f (unlink l r) v e tv (with_rows (reposition d (link l r tv.rows)) tv) fv
                (ap (λ x. reposition d (link l r x)) er
                  ∙ reposition-link-unlink hl hr t.rows d refl refl efp erp p)
                refl),
          ap (λ (x : Relations). x.journalling) after ∙ off,
        );
  }
