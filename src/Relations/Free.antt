-- ===== src/Relations/Free.antt =====
-- relations.rs, `set`: the two displacements, as they are run on a state.
use zebulon_lang.Prelude.{
  ℕ, ◌≡◌, refl, ap, ◌∙◌, true, false, not, ◌&&◌, Option, none, [], head?, arith, inl, inr,
  if◌then◌else◌, Bool-cases, Option-cases, ok,
}
use zebulon_lang.Errors.{ObjectRef, handle, ref_eq, ref_eq_iff, IsIssued}
use zebulon_lang.Relations.Table.{
  Cardinality, left_is_many, right_is_many, Rows, Table, Relations, mem, unlink,
}
use zebulon_lang.Relations.Rows.{holds}
use zebulon_lang.Relations.Undo.{Found, with_rows}
use zebulon_lang.Relations.Steps.{IsRelations, IsTable-found, Step, Step-refl, HasRoom, unset-Step}
use zebulon_lang.Relations.Displace.{
  alone, nobody, mem-alone, mem-nil, previous_left-IsIssued, holds-without_left,
  reverse-without_left, forward-without_left, previous_right-IsIssued, holds-without_right,
  forward-without_right, reverse-without_right,
}
use zebulon_lang.Relations.Update.{unset_previous_left, unset_previous_right}

-- The partner that the side of `r`, of `l`, has to give up.
abbrev pub previous_left : Cardinality → Rows → ObjectRef → Option ObjectRef
previous_left c t r = if right_is_many c then none else head? (t.reverse (handle r))

abbrev pub previous_right : Cardinality → Rows → ObjectRef → Option ObjectRef
previous_right c t l = if left_is_many c then none else head? (t.forward (handle l))

module _ {session : ℕ} (relation : ℕ) (c : Cardinality) {l r : ObjectRef} (hl : IsIssued session l)
    (hr : IsIssued session r) where
  -- After the previous partner of `r` was given up.
  pub record LeftFreed (s : Relations) (t : Table) (u : Relations) (tu : Table) : Type 0 where
    pub step : Step session s u
    pub found : Found u relation c tu
    pub rest :
        (a b : ObjectRef)
        → IsIssued session a
        → IsIssued session b
        → holds tu.rows a b ≡ holds t.rows a b && not (not (right_is_many c) && ref_eq r b)
    pub freed : right_is_many c ≡ false → tu.rows.reverse (handle r) ≡ []
    pub kept : tu.rows.forward (handle l) ≡ t.rows.forward (handle l)
    pub room : HasRoom 1 u

  pub free_left :
      {s : Relations} {t : Table}
      → IsRelations session s
      → Found s relation c t
      → holds t.rows l r ≡ false
      → HasRoom 3 s
      → (u : Relations) × (tu : Table) × (unset_previous_left relation
            (previous_left c t.rows r)
            r
            s
          ≡ (ok tt, u))
        × LeftFreed s t u tu
  unfolding unset_previous_left
  free_left {s} {t} v f absent room = elim (Bool-cases (right_is_many c)) [
    | inl many ↦ (
      s,
      t,
      rw many refl,
      record {
        step = Step-refl v;
        found = f;
        rest = λ a b ha hb. ground arith;
        freed = λ one. cc;
        kept = refl;
        room = ground arith;
      },
    )
    | inr one ↦ elim (Option-cases (head? (t.reverse (handle r)))) [
      | inl no_one ↦
          let empty = nobody (t.reverse (handle r)) no_one in
          (
            s,
            t,
            rw (one, no_one) refl,
            record {
              step = Step-refl v;
              found = f;
              rest = λ a b ha hb. ground (
                arith,
                ref_eq_iff r b,
                (IsTable-found v f).paired.mirror a r ha hr ∙ ap (λ xs. mem xs a) empty ∙ mem-nil a,
              );
              freed = λ _. empty;
              kept = refl;
              room = ground arith;
            },
          )
      | inr (q, e) ↦
          let tab = IsTable-found v f in
          let single =
            alone (t.reverse (handle r)) q ((tab.bounded c f.declared).right one (handle r)) e in
          let hq = previous_left-IsIssued tab.paired hl hr q single in
          let held : holds t.rows q r ≡ true =
            tab.paired.mirror q r hq hr
            ∙ ap (λ xs. mem xs q) single
            ∙ mem-alone q q
            ∙ (ref_eq_iff q q).1 refl in
          let (u, ran, step, found, less) = unset-Step v f hq hr held (ground arith) in
          (
            u,
            with_rows (unlink q r t.rows) t,
            rw (one, e, ran) refl,
            record {
              step = step;
              found = found;
              rest = λ a b ha hb.
                  ground (arith, holds-without_left tab.paired hl hr q single a b ha hb);
              freed = λ _. reverse-without_left tab.paired hl hr q single;
              kept = forward-without_left tab.paired hl hr q single absent;
              room = ground (arith, less 2 room);
            },
          )
    ]
  ]

  -- After the previous partner of `l` was given up.
  pub record RightFreed (s : Relations) (t : Table) (u : Relations) (tu : Table) : Type 0 where
    pub step : Step session s u
    pub found : Found u relation c tu
    pub rest :
        (a b : ObjectRef)
        → IsIssued session a
        → IsIssued session b
        → holds tu.rows a b ≡ holds t.rows a b && not (not (left_is_many c) && ref_eq l a)
    pub freed : left_is_many c ≡ false → tu.rows.forward (handle l) ≡ []
    pub kept : tu.rows.reverse (handle r) ≡ t.rows.reverse (handle r)

  pub free_right :
      {s : Relations} {t : Table}
      → IsRelations session s
      → Found s relation c t
      → holds t.rows l r ≡ false
      → HasRoom 1 s
      → (u : Relations) × (tu : Table) × (unset_previous_right relation l
            (previous_right c t.rows l)
            s
          ≡ (ok tt, u))
        × RightFreed s t u tu
  unfolding unset_previous_right
  free_right {s} {t} v f absent room = elim (Bool-cases (left_is_many c)) [
    | inl many ↦ (
      s,
      t,
      rw many refl,
      record {
        step = Step-refl v;
        found = f;
        rest = λ a b ha hb. ground arith;
        freed = λ one. cc;
        kept = refl;
      },
    )
    | inr one ↦ elim (Option-cases (head? (t.forward (handle l)))) [
      | inl no_one ↦
          let empty = nobody (t.forward (handle l)) no_one in
          (
            s,
            t,
            rw (one, no_one) refl,
            record {
              step = Step-refl v;
              found = f;
              rest = λ a b ha hb.
                  ground (arith, ref_eq_iff l a, ap (λ xs. mem xs b) empty ∙ mem-nil b);
              freed = λ _. empty;
              kept = refl;
            },
          )
      | inr (q, e) ↦
          let tab = IsTable-found v f in
          let single =
            alone (t.forward (handle l)) q ((tab.bounded c f.declared).left one (handle l)) e in
          let hq = previous_right-IsIssued tab.paired hl hr q single in
          let held : holds t.rows l q ≡ true =
            ap (λ xs. mem xs q) single ∙ mem-alone q q ∙ (ref_eq_iff q q).1 refl in
          let (u, ran, step, found, less) = unset-Step v f hl hq held room in
          (
            u,
            with_rows (unlink l q t.rows) t,
            rw (one, e, ran) refl,
            record {
              step = step;
              found = found;
              rest = λ a b ha hb.
                  ground (arith, holds-without_right tab.paired hl hr q single a b ha hb);
              freed = λ _. forward-without_right tab.paired hl hr q single;
              kept = reverse-without_right tab.paired hl hr q single absent;
            },
          )
    ]
  ]
