-- ===== src/Relations/Steps.antt =====
-- relations.rs: what every change of the state keeps, and the two changes of one row that the other
-- operations are made of.
use zebulon_lang.Prelude.{
  ℕ, suc, ◌+◌, ◌≤◌, ◌≡◌, refl, sym, ap, ◌∙◌, true, false, ◌&&◌, none, some, List, [], ◌∷◌, ◌++◌,
  append_assoc, append-nil, length, ltb, get_elem?, arith, inl, inr, get_elem?-set_cases, ok, subst,
  length-append,
}
use zebulon_lang.Errors.{ObjectRef, handle, IsIssued}
use zebulon_lang.Relations.Table.{
  Cardinality, left_is_many, right_is_many, Delta, Rows, Table, Relations, no_rows, unlink, link,
}
use zebulon_lang.Relations.Partners.{length-retain_ne}
use zebulon_lang.Relations.Rows.{IsPaired, holds, unlink-IsPaired, link-IsPaired}
use zebulon_lang.Relations.Undo.{
  Found, with_rows, content, Reverts, Reverts-nil, Reverts-append, Reverts-addition,
  Reverts-removal, change_rows_found, Found-change_rows, unset_held_lem, row_positions,
}
use zebulon_lang.Relations.Over.{
  Over, Over-nil, Over-append, Over-addition, Over-removal, Extends-refl,
}
use zebulon_lang.Relations.Update.{change_rows, push_delta, removal, addition, unset, journal_limit}

-- A side with one partner has at most one.
pub record IsBounded (c : Cardinality) (t : Rows) : Type 0 where
  pub left : left_is_many c ≡ false → (k : ℕ) → length (t.forward k) ≤ 1
  pub right : right_is_many c ≡ false → (k : ℕ) → length (t.reverse k) ≤ 1

pub record IsTable (session : ℕ) (t : Table) : Type 0 where
  pub paired : IsPaired session t.rows
  pub bounded : (c : Cardinality) → t.cardinality ≡ some c → IsBounded c t.rows
  pub undeclared : t.cardinality ≡ none → t.rows ≡ no_rows

pub record IsRelations (session : ℕ) (s : Relations) : Type 0 where
  pub each : (i : ℕ) (t : Table) → get_elem? s.tables i ≡ some t → IsTable session t

-- A change that keeps the invariant, and whose new deltas lead back.
pub record Step (session : ℕ) (s u : Relations) : Type 0 where
  pub valid : IsRelations session u
  pub switch : u.journalling ≡ s.journalling
  pub undo :
      s.journalling ≡ true
      → (ds : List Delta) × (u.journal ≡ s.journal ++ ds) × Reverts ds u s × Over ds u s

pub Step-refl : {session : ℕ} {s : Relations} → IsRelations session s → Step session s s
Step-refl {session} {s} v = record {
  valid = v;
  switch = refl;
  undo = λ on. ([], sym (append-nil s.journal), Reverts-nil s, Over-nil (Extends-refl (content s)));
}

pub Step-trans :
    {session : ℕ} {s m u : Relations} → Step session s m → Step session m u → Step session s u
Step-trans {session} {s} {m} {u} a b = record {
  valid = b.valid;
  switch = b.switch ∙ a.switch;
  undo = λ on.
      let (ds, e, back, over) = a.undo on in
      let (es, e', back', over') = b.undo (a.switch ∙ on) in
      (
        ds ++ es,
        e' ∙ ap (λ j. j ++ es) e ∙ append_assoc s.journal ds es,
        Reverts-append ds es back' back,
        Over-append ds es over' over,
      );
}

module _ {session : ℕ} {s : Relations} (v : IsRelations session s) {relation : ℕ} {c : Cardinality}
    {t : Table} (f : Found s relation c t) where
  pub IsTable-found : IsTable session t
  IsTable-found = v.each relation t f.here

  pub IsRelations-change_rows :
      (g : Rows → Rows)
      → IsPaired session (g t.rows)
      → IsBounded c (g t.rows)
      → IsRelations session (change_rows relation g s)
  IsRelations-change_rows g p b = rw (change_rows_found f g) record {
    each = λ i x e. elim (get_elem?-set_cases s.tables relation i (with_rows (g t.rows) t) e) [
      | inl new ↦ subst (IsTable session) new changed
      | inr old ↦ v.each i x old
    ];
  }
    where
      changed : IsTable session (with_rows (g t.rows) t)
      changed = record {
        paired = p;
        bounded =
            λ c' e. let same : c ≡ c' = cc f.declared in subst (λ k. IsBounded k (g t.rows)) same b;
        undeclared = λ e. cc f.declared;
      }

-- A change of rows with its delta.
abbrev pub change : Delta → ℕ → (Rows → Rows) → Relations → Relations
change d relation g s = push_delta d (change_rows relation g s)

content-push_delta : (d : Delta) (s : Relations) → content (push_delta d s) ≡ content s
unfolding push_delta
content-push_delta d s = ground arith

tables-push_delta : (d : Delta) (s : Relations) → (push_delta d s).tables ≡ s.tables
unfolding push_delta
tables-push_delta d s = ground arith

module _ {session : ℕ} {s : Relations} (v : IsRelations session s) {relation : ℕ} {c : Cardinality}
    {t : Table} (f : Found s relation c t) (g : Rows → Rows) (d : Delta) where
  pub journalling-change : (change d relation g s).journalling ≡ s.journalling
  unfolding push_delta
  journalling-change = rw (change_rows_found f g) (ground arith)

  pub journal-change : s.journalling ≡ true → (change d relation g s).journal ≡ s.journal ++ d ∷ []
  unfolding push_delta
  journal-change on = rw (change_rows_found f g, on) refl

  pub Found-change : Found (change d relation g s) relation c (with_rows (g t.rows) t)
  Found-change =
      let old = Found-change_rows f g in
      record {
        here = rw (tables-push_delta d (change_rows relation g s)) old.here;
        declared = old.declared;
      }

  pub Step-change :
      IsPaired session (g t.rows)
      → IsBounded c (g t.rows)
      → Reverts (d ∷ []) (change d relation g s) s
      → Over (d ∷ []) (change d relation g s) s
      → Step session s (change d relation g s)
  Step-change p b back over = record {
    valid = record {
      each = λ i x e.
          (IsRelations-change_rows v f g p b).each i x
            (rw (tables-push_delta d (change_rows relation g s)) at e);
    };
    switch = journalling-change;
    undo = λ on. (d ∷ [], journal-change on, back, over);
  }

-- The journal has room for `n` more deltas, where it is being written.
abbrev pub HasRoom : ℕ → Relations → Type 0
HasRoom n s = s.journalling && ltb journal_limit (length s.journal + n) ≡ false

unlink-IsBounded :
    (c : Cardinality) (l r : ObjectRef) (t : Rows) → IsBounded c t → IsBounded c (unlink l r t)
unfolding unlink
unlink-IsBounded c l r t b = record {
  left = λ one k.
      ground
        (arith, b.left one k, b.left one (handle l), length-retain_ne r (t.forward (handle l)));
  right = λ one k.
      ground
        (arith, b.right one k, b.right one (handle r), length-retain_ne l (t.reverse (handle r)));
}

module _ {session : ℕ} {s : Relations} (v : IsRelations session s) {relation : ℕ} {c : Cardinality}
    {t : Table} (f : Found s relation c t) {l r : ObjectRef} (hl : IsIssued session l)
    (hr : IsIssued session r) where
  tab : IsTable session t
  tab = IsTable-found v f

  -- `unset` of a row that is there: one step, which takes that row out of both maps.
  pub unset-Step :
      holds t.rows l r ≡ true
      → HasRoom 1 s
      → (u : Relations) × (unset relation l r s ≡ (ok true, u))
        × Step session s u
        × Found u relation c (with_rows (unlink l r t.rows) t)
        × ((n : ℕ) → HasRoom (suc n) s → HasRoom n u)
  unset-Step held room =
      let (fp, rp, efp, erp) = row_positions tab.paired hl hr held in
      let d = removal relation l r fp rp in
      (
        change d relation (unlink l r) s,
        unset_held_lem f l r fp rp held efp erp room,
        Step-change v f (unlink l r) d (unlink-IsPaired hl hr t.rows tab.paired)
            (unlink-IsBounded c l r t.rows (tab.bounded c f.declared))
            (Reverts-removal f tab.paired hl hr (change d relation (unlink l r) s) fp rp held efp
              erp (content-push_delta d (change_rows relation (unlink l r) s)))
            (Over-removal f tab.paired hl hr (change d relation (unlink l r) s) fp rp held efp erp
              (content-push_delta d (change_rows relation (unlink l r) s))),
        Found-change v f (unlink l r) d,
        λ n more. ground (
          arith,
          journalling-change v f (unlink l r) d,
          λ (on : s.journalling ≡ true).
              ap (λ (j : List Delta). length j) (journal-change v f (unlink l r) d on)
              ∙ length-append s.journal (d ∷ []),
        ),
      )

  -- The addition of a row that is absent, to sides that have room for it.
  pub add-Step :
      holds t.rows l r ≡ false
      → IsBounded c (link l r t.rows)
      → Step session s (change (addition relation l r) relation (link l r) s)
  add-Step absent b =
      let d = addition relation l r in
      let same = content-push_delta d (change_rows relation (link l r) s) in
      Step-change v f (link l r) d (link-IsPaired hl hr t.rows absent tab.paired) b
        (Reverts-addition f tab.paired hl hr (change d relation (link l r) s) absent same)
        (Over-addition f tab.paired hl hr (change d relation (link l r) s) absent same)
