-- ===== src/Relations/Undo.antt =====
-- relations.rs: what it means that a list of deltas leads back from one state to another, and that
-- the delta of one change leads back over that change. The cached chains are no part of a state here.
use zebulon_lang.Prelude.{
  ℕ, ◌+◌, ◌≡◌, refl, sym, ap, ◌∙◌, ltb, true, false, ◌&&◌, none, some, List, [], ◌∷◌, ◌++◌, map,
  length, get_elem?, set as set_elem, arith, get_elem?-set_self, set-set, set-get_elem?, map-set,
  get_elem?-map, get_elem?-unmap, ok,
}
use zebulon_lang.Errors.{ObjectRef, handle, ref_eq_iff, IsIssued}
use zebulon_lang.Relations.Table.{
  Cardinality, Delta, Rows, Table, Relations, position, unlink, link, reposition,
}
use zebulon_lang.Relations.Query.{contains, table}
use zebulon_lang.Relations.Rows.{
  holds, IsPaired, holds-unlink, holds-link, unlink-link, reposition-link-unlink, link-IsPaired,
}
use zebulon_lang.Relations.Partners.{position-mem}
use zebulon_lang.Relations.Update.{
  change_rows, removal, addition, unset, insert, reserve_journal, journal_limit, push_delta,
}
use zebulon_lang.Relations.Revert.{revert_one, revert_all, put_back, reposition_row}

-- A table with nothing cached, and with other rows.
abbrev pub cleared : Table → Table
cleared t = record t { outermost = λ _. none }

abbrev pub with_rows : Rows → Table → Table
with_rows rows t = record { cardinality = t.cardinality; rows = rows; outermost = λ _. none }

abbrev pub content : Relations → List Table
content s = map cleared s.tables

-- The table that a call names, and its cardinality.
pub record Found (s : Relations) (relation : ℕ) (c : Cardinality) (t : Table) : Type 0 where
  pub here : get_elem? s.tables relation ≡ some t
  pub declared : t.cardinality ≡ some c

module _ {s : Relations} {relation : ℕ} {c : Cardinality} {t : Table}
    (f : Found s relation c t) where
  pub table_found : table s relation ≡ ok t
  unfolding table
  table_found = rw f.here (rw f.declared refl)

  pub contains_found : (l r : ObjectRef) → contains s relation l r ≡ ok (holds t.rows l r)
  unfolding contains
  contains_found l r = rw table_found refl

  pub change_rows_found :
      (g : Rows → Rows)
      → change_rows relation g s
        ≡ record s { tables = set_elem s.tables relation (with_rows (g t.rows) t) }
  unfolding change_rows
  change_rows_found g = rw (f.here, change_rows) refl

  pub content-change_rows :
      (g : Rows → Rows)
      → content (change_rows relation g s) ≡ set_elem (content s) relation (with_rows (g t.rows) t)
  content-change_rows g =
      ap content (change_rows_found g) ∙ map-set cleared s.tables relation (with_rows (g t.rows) t)

  pub Found-change_rows :
      (g : Rows → Rows) → Found (change_rows relation g s) relation c (with_rows (g t.rows) t)
  Found-change_rows g = record {
    here = rw (change_rows_found g) (get_elem?-set_self s.tables relation _ f.here);
    declared = f.declared;
  }

  -- `unset` of a row that is there, with room in the journal.
  pub unset_held_lem :
      (l r : ObjectRef) (fp rp : ℕ)
      → holds t.rows l r ≡ true
      → position r (t.forward (handle l)) ≡ some fp
      → position l (t.reverse (handle r)) ≡ some rp
      → s.journalling && ltb journal_limit (length s.journal + 1) ≡ false
      → unset relation l r s
        ≡ (ok true, push_delta (removal relation l r fp rp) (change_rows relation (unlink l r) s))
  unfolding unset reserve_journal
  unset_held_lem l r fp rp held efp erp room =
      rw (contains_found l r, held, room, f.here, efp, erp) refl

  pub unset_absent_lem :
      (l r : ObjectRef) → holds t.rows l r ≡ false → unset relation l r s ≡ (ok false, s)
  unfolding unset
  unset_absent_lem l r absent = rw (contains_found l r, absent) refl

  pub insert_absent_lem :
      (l r : ObjectRef)
      → holds t.rows l r ≡ false
      → insert relation l r s ≡ (ok true, change_rows relation (link l r) s)
  unfolding insert
  insert_absent_lem l r absent = rw (contains_found l r, absent, f.here) refl

-- Read back from the newest, the deltas take any state with the content of `u` to the content of `s`.
pub record Reverts (deltas : List Delta) (u s : Relations) : Type 0 where
  pub lead_back :
      (v : Relations)
      → v.journalling ≡ false
      → content v ≡ content u
      → (content (revert_all deltas v).1 ≡ content s)
        × ((revert_all deltas v).1.journalling ≡ false)

pub Reverts-nil : (s : Relations) → Reverts [] s s
unfolding revert_all
Reverts-nil s = record { lead_back = λ v off e. (e, off) }

pub revert_all-append :
    (ds es : List Delta) (v : Relations)
    → (revert_all (ds ++ es) v).1 ≡ (revert_all ds (revert_all es v).1).1
unfolding revert_all
revert_all-append [] es v = refl
revert_all-append (d ∷ ds) es v = ap (λ s. (revert_one d s).1) (revert_all-append ds es v)

pub Reverts-append :
    (ds es : List Delta) {u m s : Relations}
    → Reverts es u m
    → Reverts ds m s
    → Reverts (ds ++ es) u s
Reverts-append ds es back back' = record {
  lead_back = λ v off e.
      let (same, off') = back.lead_back v off e in
      rw (revert_all-append ds es v) (back'.lead_back (revert_all es v).1 off' same);
}

-- The table that a change left, in any state with the content that the change left.
Found-content :
    {s : Relations} {relation : ℕ} {c : Cardinality} {t : Table} (f : Found s relation c t)
    (g : Rows → Rows) (v : Relations)
    → content v ≡ content (change_rows relation g s)
    → (tv : Table) × Found v relation c tv × (tv.rows ≡ g t.rows) × (tv.cardinality ≡ t.cardinality)
Found-content {s} {relation} {c} {t} f g v e =
    let at : get_elem? (content v) relation ≡ some (with_rows (g t.rows) t) =
      rw (e ∙ content-change_rows f g) (
        get_elem?-set_self (content s) relation (with_rows (g t.rows) t)
          (get_elem?-map cleared s.tables relation f.here)) in
    let (tv, here, same) = get_elem?-unmap cleared v.tables relation at in
    (
      tv,
      record { here = here; declared = ap (λ (x : Table). x.cardinality) same ∙ f.declared },
      ap (λ (x : Table). x.rows) same,
      ap (λ (x : Table). x.cardinality) same,
    )

-- A second change that undoes the first one's rows gives the content back.
content_undone :
    {s : Relations} {relation : ℕ} {c : Cardinality} {t : Table} (f : Found s relation c t)
    (tv : Table) (g h : Rows → Rows) (v : Relations)
    → content v ≡ content (change_rows relation g s)
    → tv.cardinality ≡ t.cardinality
    → h tv.rows ≡ t.rows
    → set_elem (content v) relation (with_rows (h tv.rows) tv) ≡ content s
content_undone {s} {relation} {c} {t} f tv g h v e ec er = rw (e ∙ content-change_rows f g) (
    set-set (content s) relation _ _
    ∙ set-get_elem? (content s) relation _ (
        get_elem?-map cleared s.tables relation f.here
        ∙ ap some (λ i. record { cardinality = sym ec i; rows = sym er i; outermost = λ _. none })))

push_delta_off : (d : Delta) (s : Relations) → s.journalling ≡ false → push_delta d s ≡ s
unfolding push_delta
push_delta_off d s off = rw off refl

reposition_row-Found :
    {s : Relations} {c : Cardinality} {t : Table} (d : Delta)
    → Found s d.relation c t
    → reposition_row d s
      ≡ record s { tables = set_elem s.tables d.relation (record t { rows = reposition d t.rows }) }
unfolding reposition_row
reposition_row-Found d f = rw (f.here, reposition_row) refl

-- Reverting a removal, in a state where the row is absent.
pub revert_one-removal :
    {s : Relations} {relation : ℕ} {c : Cardinality} {t : Table} (f : Found s relation c t)
    (l r : ObjectRef) (fp rp : ℕ)
    → holds t.rows l r ≡ false
    → (revert_one (removal relation l r fp rp) s).1 ≡ record s {
      tables =
          set_elem s.tables relation
            (with_rows (reposition (removal relation l r fp rp) (link l r t.rows)) t);
    }
unfolding revert_one
revert_one-removal {s} {relation} {c} {t} f l r fp rp absent =
    let d = removal relation l r fp rp in
    ap (λ x. (put_back d x).1) (insert_absent_lem f l r absent)
    ∙ reposition_row-Found d (Found-change_rows f (link l r))
    ∙ rw (change_rows_found f (link l r))
        (ap (λ (ts : List Table). record s { tables = ts }) (set-set s.tables relation _ _))

-- Both positions of a row that is there.
pub row_positions :
    {session : ℕ} {t : Rows} {l r : ObjectRef}
    → IsPaired session t
    → IsIssued session l
    → IsIssued session r
    → holds t l r ≡ true
    → (fp : ℕ) × (rp : ℕ) × (position r (t.forward (handle l)) ≡ some fp)
      × (position l (t.reverse (handle r)) ≡ some rp)
row_positions {t} {l} {r} p hl hr held =
    let (fp, efp) = position-mem r (t.forward (handle l)) held in
    let (rp, erp) = position-mem l (t.reverse (handle r)) (sym (p.mirror l r hl hr) ∙ held) in
    (fp, rp, efp, erp)

module _ {session : ℕ} {s : Relations} {relation : ℕ} {c : Cardinality} {t : Table}
    (f : Found s relation c t) (p : IsPaired session t.rows) {l r : ObjectRef}
    (hl : IsIssued session l) (hr : IsIssued session r) where
  -- With the journal off, `unset` writes none.
  pub unset_quiet :
      s.journalling ≡ false
      → holds t.rows l r ≡ true
      → unset relation l r s ≡ (ok true, change_rows relation (unlink l r) s)
  unset_quiet off held =
      let (fp, rp, efp, erp) = row_positions p hl hr held in
      unset_held_lem f l r fp rp held efp erp (rw off refl)
      ∙ ap (λ x. (ok true, x))
          (push_delta_off (removal relation l r fp rp) (change_rows relation (unlink l r) s)
            (ap (λ (x : Relations). x.journalling) (change_rows_found f (unlink l r)) ∙ off))

module _ {session : ℕ} {s : Relations} {relation : ℕ} {c : Cardinality} {t : Table}
    (f : Found s relation c t) (p : IsPaired session t.rows) {l r : ObjectRef}
    (hl : IsIssued session l) (hr : IsIssued session r) (u : Relations) where
  -- The delta of an addition leads back over it.
  pub Reverts-addition :
      holds t.rows l r ≡ false
      → content u ≡ content (change_rows relation (link l r) s)
      → Reverts (addition relation l r ∷ []) u s
  unfolding revert_all revert_one
  Reverts-addition absent eu = record {
    lead_back = λ v off e.
        let (tv, fv, er, ec) = Found-content f (link l r) v (e ∙ eu) in
        let pv : IsPaired session tv.rows = rw er (link-IsPaired hl hr t.rows absent p) in
        let held : holds tv.rows l r ≡ true =
          rw er (holds-link hl hr t.rows hl hr ∙ ground (arith, ref_eq_iff l l, ref_eq_iff r r)) in
        rw (unset_quiet fv pv hl hr off held) (
          content-change_rows fv (unlink l r)
              ∙ content_undone f tv (link l r) (unlink l r) v (e ∙ eu) ec
                  (ap (unlink l r) er ∙ unlink-link hl hr t.rows absent p),
          ap (λ (x : Relations). x.journalling) (change_rows_found fv (unlink l r)) ∙ off,
        );
  }

  -- The delta of a removal leads back over it.
  pub Reverts-removal :
      (fp rp : ℕ)
      → holds t.rows l r ≡ true
      → position r (t.forward (handle l)) ≡ some fp
      → position l (t.reverse (handle r)) ≡ some rp
      → content u ≡ content (change_rows relation (unlink l r) s)
      → Reverts (removal relation l r fp rp ∷ []) u s
  unfolding revert_all
  Reverts-removal fp rp held efp erp eu = record {
    lead_back = λ v off e.
        let (tv, fv, er, ec) = Found-content f (unlink l r) v (e ∙ eu) in
        let absent : holds tv.rows l r ≡ false =
          rw er
            (holds-unlink hl hr t.rows hl hr ∙ ground (arith, ref_eq_iff l l, ref_eq_iff r r)) in
        let d = removal relation l r fp rp in
        let after = revert_one-removal fv l r fp rp absent in
        (
          ap content after
              ∙ map-set cleared v.tables relation (with_rows (reposition d (link l r tv.rows)) tv)
              ∙ content_undone f tv (unlink l r) (λ x. reposition d (link l r x)) v (e ∙ eu) ec
                  (ap (λ x. reposition d (link l r x)) er
                    ∙ reposition-link-unlink hl hr t.rows d refl refl efp erp p),
          ap (λ (x : Relations). x.journalling) after ∙ off,
        );
  }
