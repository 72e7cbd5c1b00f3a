-- ===== src/Relations/Set.antt =====
-- relations.rs, `set`: the whole operation, from the displacements to the new row.
use zebulon_lang.Prelude.{
  ℕ, ◌+◌, ◌≡◌, refl, sym, ap, ◌∙◌, Bool, true, false, not, ◌&&◌, ◌||◌, none, List, [], ◌∷◌, length,
  length-append, head?, arith, inl, inr, if◌then◌else◌, Bool-cases, ok, ltb, err,
}
use zebulon_lang.Errors.{ObjectRef, handle, ref_eq, ref_eq_iff, IsIssued, resource_limit}
use zebulon_lang.Relations.Table.{
  Cardinality, left_is_many, right_is_many, Rows, Table, Relations, mem, link, left_is_many,
}
use zebulon_lang.Relations.Rows.{holds, holds-link}
use zebulon_lang.Relations.Undo.{Found, with_rows, contains_found, insert_absent_lem, table_found}
use zebulon_lang.Relations.Steps.{
  IsBounded, IsRelations, IsTable-found, Step, Step-refl, Step-trans, HasRoom, add-Step, change,
  Found-change,
}
use zebulon_lang.Relations.Displace.{alone_of_mem, mem-alone}
use zebulon_lang.Relations.Free.{previous_left, previous_right, free_left, free_right}
use zebulon_lang.Relations.Query.{cardinality}
use zebulon_lang.Relations.Update.{
  unset_previous_right, set, set_new, displaced_left, displaced_right, reserve_journal,
  prepare_insert, addition, journal_limit,
}

-- Whether the row of `a` and `b` stands in the way of one of `l` and `r`.
abbrev pub displaced : Cardinality → ObjectRef → ObjectRef → ObjectRef → ObjectRef → Bool
displaced c l r a b = not (right_is_many c) && ref_eq r b || not (left_is_many c) && ref_eq l a

-- Sides that were freed have room for one more partner.
link-IsBounded :
    (c : Cardinality) (l r : ObjectRef) (t : Rows)
    → IsBounded c t
    → (right_is_many c ≡ false → t.reverse (handle r) ≡ [])
    → (left_is_many c ≡ false → t.forward (handle l) ≡ [])
    → IsBounded c (link l r t)
unfolding link
link-IsBounded c l r t b no_left no_right = record {
  left = λ one k. ground (
    arith,
    b.left one k,
    length-append (t.forward (handle l)) (r ∷ []),
    ap (λ (x : List ObjectRef). length x) (no_right one),
  );
  right = λ one k. ground (
    arith,
    b.right one k,
    length-append (t.reverse (handle r)) (l ∷ []),
    ap (λ (x : List ObjectRef). length x) (no_left one),
  );
}

module _ {session : ℕ} {s : Relations} (v : IsRelations session s) {relation : ℕ} {c : Cardinality}
    {t : Table} (f : Found s relation c t) {l r : ObjectRef} (hl : IsIssued session l)
    (hr : IsIssued session r) where
  cardinality_found : cardinality s relation ≡ ok c
  unfolding cardinality
  cardinality_found = rw (table_found f, f.declared) refl

  displaced_left_found : displaced_left c relation r s ≡ ok (previous_left c t.rows r)
  unfolding displaced_left
  displaced_left_found = rw f.here (ground arith)

  displaced_right_found : displaced_right c relation l s ≡ ok (previous_right c t.rows l)
  unfolding displaced_right
  displaced_right_found = rw f.here (ground arith)

  -- The new row goes where the displaced ones made room.
  set_new_lem :
      holds t.rows l r ≡ false
      → HasRoom 3 s
      → (u : Relations) × (tu : Table) × (set_new c relation l r s ≡ (ok tt, u))
        × Step session s u
        × Found u relation c tu
        × ((a b : ObjectRef)
            → IsIssued session a
            → IsIssued session b
            → holds tu.rows a b
              ≡ (ref_eq l a && ref_eq r b) || (holds t.rows a b && not (displaced c l r a b)))
  unfolding set_new reserve_journal prepare_insert
  set_new_lem absent room =
      let (s1, t1, ran1, free1) = free_left relation c hl hr v f absent room in
      let absent1 : holds t1.rows l r ≡ false = ground (arith, free1.rest l r hl hr) in
      let (s2, t2, ran2, free2) =
        free_right relation c hl hr free1.step.valid free1.found absent1 free1.room in
      let absent2 : holds t2.rows l r ≡ false = ground (arith, free2.rest l r hl hr) in
      let ran2' : unset_previous_right relation l (previous_right c t.rows l) s1 ≡ (ok tt, s2) =
        ap (λ xs. unset_previous_right relation l (if left_is_many c then none else head? xs) s1)
          (sym free1.kept)
        ∙ ran2 in
      let tab2 = IsTable-found free2.step.valid free2.found in
      (
        change (addition relation l r) relation (link l r) s2,
        with_rows (link l r t2.rows) t2,
        rw
            (
              displaced_left_found,
              displaced_right_found,
              room,
              f.here,
              ran1,
              ran2',
              insert_absent_lem free2.found l r absent2,
            )
            refl,
        Step-trans free1.step (
            Step-trans free2.step (
              add-Step free2.step.valid free2.found hl hr absent2 (
                link-IsBounded c l r t2.rows (tab2.bounded c free2.found.declared)
                  (λ one. free2.kept ∙ free1.freed one) free2.freed))),
        Found-change free2.step.valid free2.found (link l r) (addition relation l r),
        λ a b ha hb.
            ground
              (arith, holds-link hl hr t2.rows ha hb, free1.rest a b ha hb, free2.rest a b ha hb),
      )

  -- A row that is there has nothing in its way.
  holds_alone :
      holds t.rows l r ≡ true
      → (a b : ObjectRef) → IsIssued session a
      → IsIssued session b
      → holds t.rows a b
        ≡ (ref_eq l a && ref_eq r b) || (holds t.rows a b && not (displaced c l r a b))
  holds_alone held a b ha hb =
      let tab = IsTable-found v f in
      let bounds = tab.bounded c f.declared in
      ground (
        arith,
        ref_eq_iff l a,
        ref_eq_iff r b,
        tab.paired.mirror a r ha hr,
        λ (one : right_is_many c ≡ false).
            ap (λ xs. mem xs a)
              (alone_of_mem (t.reverse (handle r)) l (bounds.right one (handle r))
                (sym (tab.paired.mirror l r hl hr) ∙ held))
            ∙ mem-alone l a,
        λ (one : left_is_many c ≡ false).
            ap (λ xs. mem xs b)
              (alone_of_mem (t.forward (handle l)) r (bounds.left one (handle l)) held)
            ∙ mem-alone r b,
      )

module _ {session : ℕ} {s : Relations} (v : IsRelations session s) {relation : ℕ} {c : Cardinality}
    {t : Table} (f : Found s relation c t) {l r : ObjectRef} (hl : IsIssued session l)
    (hr : IsIssued session r) where
  -- For references of the session and well-formed relations: where the relation is declared and the
  -- journal has room for three deltas, `set` succeeds, keeps the invariant, its deltas lead back to
  -- the state before, and the rows afterwards are the new one and the old ones that the cardinality
  -- lets stay beside it.
  pub set_lem :
      HasRoom 3 s
      → (u : Relations) × (tu : Table) × (set relation l r s ≡ (ok tt, u))
        × Step session s u
        × Found u relation c tu
        × ((a b : ObjectRef)
            → IsIssued session a
            → IsIssued session b
            → holds tu.rows a b
              ≡ (ref_eq l a && ref_eq r b) || (holds t.rows a b && not (displaced c l r a b)))
  unfolding set
  set_lem room = elim (Bool-cases (holds t.rows l r)) [
    | inl held ↦ (
      s,
      t,
      rw (cardinality_found v f hl hr, contains_found f l r, held) refl,
      Step-refl v,
      f,
      holds_alone v f hl hr held,
    )
    | inr absent ↦
        let (u, tu, ran, step, found, rows) = set_new_lem v f hl hr absent room in
        (
          u,
          tu,
          rw (cardinality_found v f hl hr, contains_found f l r, absent) ran,
          step,
          found,
          rows,
        )
  ]

  -- A row that is there already: nothing to do.
  pub set_held_lem : holds t.rows l r ≡ true → set relation l r s ≡ (ok tt, s)
  unfolding set
  set_held_lem held = rw (cardinality_found v f hl hr, contains_found f l r, held) refl

  -- Without room for three deltas nothing is changed.
  pub set_full_lem :
      holds t.rows l r ≡ false
      → s.journalling && ltb journal_limit (length s.journal + 3) ≡ true
      → set relation l r s ≡ (err resource_limit, s)
  unfolding set reserve_journal
  set_full_lem absent full =
      rw
        (
          cardinality_found v f hl hr,
          contains_found f l r,
          absent,
          displaced_left_found v f hl hr,
          displaced_right_found v f hl hr,
          full,
        )
        refl
