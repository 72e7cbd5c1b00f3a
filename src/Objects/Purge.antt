-- ===== src/Objects/Purge.antt =====
-- objects.rs, `Store::destroy` on a forest: the stack is worked off, and what goes is the forest.
use zebulon_lang.Prelude.{
  ◌<◌, not, ◌&&◌, ℕ, suc, ◌+◌, ◌*◌, ◌≡◌, refl, sym, ap, ◌∙◌, subst, inl, inr, true, false, Option,
  none, some, List, [], ◌∷◌, arith, ◌==◌, Bool-cases, ==_iff,
}
use zebulon_lang.Prelude.Maps.{
  find, insert, remove, find-insert_self, find-insert_ne, find-remove_self, find-remove_ne,
}
use zebulon_lang.Errors.{ObjectRef}
use zebulon_lang.Objects.{Record, Cleanup, enter, release, Store}
use zebulon_lang.Objects.Destroy.{
  push_all, remove_id, released, revoked, cleanup_step, cleanup_loop,
}
use zebulon_lang.Objects.Forest.{
  IsDistinct, Forest, empty, plant, roots, size, has, IsApart, Holds, Holds-agree, lists,
  IsAscending, is_some, IsIndexed, remove_id_lem,
}

-- What `destroy` does not touch.
abbrev pub frame : Store → Store
frame s = record s {
  records = [];
  record_order = [];
  free_slots = [];
  cleanup = [];
  properties = 0;
  string_bytes = 0;
  inheritance_edges = 0;
  pending = 0;
}

-- `u` is `s` without the records of the forest.
pub record Purged (f : Forest) (s u : Store) : Type 0 where
  pub inside : (l : ℕ) → has f l ≡ true → find u.records l ≡ none
  pub outside : (l : ℕ) → has f l ≡ false → find u.records l ≡ find s.records l
  pub framed : frame u ≡ frame s
  pub indexed : IsIndexed u

module _ (o : ObjectRef) (rest : List Cleanup) (s : Store) (r : Record)
    (here : find s.records o.logical ≡ some r) where
  loop_enter :
      (n : ℕ)
      → s.cleanup ≡ enter o ∷ rest
      → cleanup_loop (suc n) s ≡ cleanup_loop n (revoked o r (record s { cleanup = rest }))
  unfolding cleanup_loop cleanup_step
  loop_enter n top = simp (top, here, cleanup_loop, cleanup_step) refl

  loop_release :
      (n : ℕ) (order : List ℕ)
      → s.cleanup ≡ release o ∷ rest
      → remove_id o.logical s.record_order ≡ some order
      → cleanup_loop (suc n) s ≡ cleanup_loop n (released o r order (record s { cleanup = rest }))
  unfolding cleanup_loop cleanup_step
  loop_release n order top listed = simp (top, here, listed, cleanup_loop, cleanup_step) refl

  find-revoked :
      (l : ℕ)
      → is_some (find s.records l)
        ≡ is_some (find (insert o.logical (record r { live = false }) s.records) l)
  find-revoked l = elim (Bool-cases (o.logical == l)) [
    | inl at ↦
        subst
          (λ k.
            is_some (find s.records k)
            ≡ is_some (find (insert o.logical (record r { live = false }) s.records) k))
          ((==_iff o.logical l).0 at)
          (rw (here, find-insert_self s.records o.logical (record r { live = false })) refl)
    | inr other ↦
        ap is_some (sym (find-insert_ne s.records o.logical l (record r { live = false }) other))
  ]

  find-released :
      (l : ℕ)
      → is_some (find (remove o.logical s.records) l)
        ≡ (is_some (find s.records l) && not (o.logical == l))
  find-released l = elim (Bool-cases (o.logical == l)) [
    | inl at ↦
        let gone : find (remove o.logical s.records) l ≡ none =
          ap (find (remove o.logical s.records)) (sym ((==_iff o.logical l).0 at))
          ∙ find-remove_self s.records o.logical in
        rw (gone, at) (ground arith)
    | inr other ↦ rw (find-remove_ne s.records o.logical l other, other) (ground arith)
  ]

  revoked-IsIndexed : IsIndexed s → IsIndexed (revoked o r (record s { cleanup = rest }))
  unfolding revoked
  revoked-IsIndexed i = record {
    ascending = i.ascending;
    lists_all = λ l. i.lists_all l ∙ find-revoked l;
    distinct = i.distinct;
    unused = λ l e. sym (find-revoked l) ∙ i.unused l e;
    issued = λ l e. i.issued l (rw (find-revoked l) e);
  }

  released-IsIndexed :
      (order : List ℕ)
      → IsAscending order
      → ((l : ℕ) → lists order l ≡ lists s.record_order l && not (o.logical == l))
      → IsIndexed s
      → IsIndexed (released o r order (record s { cleanup = rest }))
  unfolding released lists IsDistinct
  released-IsIndexed order asc lists' i =
      let was_used : is_some (find s.records o.logical) ≡ true = ap is_some here in
      record {
        ascending = asc;
        lists_all = λ l. ground (arith, lists' l, i.lists_all l, find-released l);
        distinct = (ground (arith, i.unused o.logical, was_used), i.distinct);
        unused = λ l e. ground (arith, i.unused l, find-released l, ==_iff o.logical l);
        issued = λ l e. elim (Bool-cases (o.logical == l)) [
          | inl at ↦
              subst (λ k. k < s.next_identity) ((==_iff o.logical l).0 at)
                (i.issued o.logical (ground (arith, was_used)))
          | inr other ↦ i.issued l (ground (arith, find-released l, other))
        ];
      }

-- Working off the entries of a forest takes two rounds for each of its records, neither fails nor
-- stops before, and removes these records and no other.
pub purge :
    (f : Forest) (parent : Option ObjectRef) (s : Store) (rest : List Cleanup) (n : ℕ)
    → Holds s.records parent f
    → IsApart f
    → IsIndexed s
    → s.cleanup ≡ push_all (roots f) rest
    → (u : Store) × (cleanup_loop (2 * size f + n) s ≡ cleanup_loop n u)
      × (u.cleanup ≡ rest)
      × Purged f s u
unfolding Holds IsApart has revoked released
purge empty parent s rest n holds apart indexed top = (
  s,
  ap (λ k. cleanup_loop k s) (omega arith),
  top,
  record { inside = λ l e. absurd (cc e); outside = λ l e. refl; framed = refl; indexed = indexed },
)
purge (plant o kids beside) parent s rest n (node, below, next)
      (o∉kids, o∉beside, disjoint, apart_kids, apart_beside) indexed top =
    let n2 = 2 * size kids + suc n in
    let (s1, ran1, top1, p1) =
      purge beside parent s (enter o ∷ rest) (suc n2) next apart_beside indexed top in
    let r = node.held in
    let here1 : find s1.records o.logical ≡ some r = p1.outside o.logical o∉beside ∙ node.here in
    let r' = record r { live = false } in
    let s2 = revoked o r (record s1 { cleanup = rest }) in
    let kids2 : (l : ℕ) → has kids l ≡ true → find s2.records l ≡ find s.records l = λ l e.
      let ne : (o.logical == l) ≡ false = (elim (Bool-cases (o.logical == l)) [
        | inl same ↦ absurd (cc (ap (has kids) ((==_iff o.logical l).0 same), o∉kids, e))
        | inr other ↦ other
      ]) in
      find-insert_ne s1.records o.logical l r' ne ∙ p1.outside l (disjoint l e) in
    let top2 : s2.cleanup ≡ push_all (roots kids) (release o ∷ rest) =
      ap (λ c. push_all c (release o ∷ rest)) node.owns in
    let (s3, ran3, top3, p3) =
      purge kids (some o) s2 (release o ∷ rest) (suc n)
        (Holds-agree s.records s2.records (some o) kids kids2 below) apart_kids
        (revoked-IsIndexed o rest s1 r here1 p1.indexed) top2 in
    let here3 : find s3.records o.logical ≡ some r' =
      p3.outside o.logical o∉kids ∙ find-insert_self s1.records o.logical r' in
    let (order, removed, asc, lists') =
      remove_id_lem o.logical s3.record_order p3.indexed.ascending
        (p3.indexed.lists_all o.logical ∙ ap is_some here3) in
    let s4 = released o r' order (record s3 { cleanup = rest }) in
    (
      s4,
      ap (λ k. cleanup_loop k s) (omega arith)
          ∙ ran1
          ∙ loop_enter o rest s1 r here1 n2 top1
          ∙ ran3
          ∙ loop_release o rest s3 r' here3 n order top3 removed,
      refl,
      record {
        inside = λ l e. elim (Bool-cases (o.logical == l)) [
          | inl same ↦
              ap (find s4.records) (sym ((==_iff o.logical l).0 same))
              ∙ find-remove_self s3.records o.logical
          | inr other ↦
              find-remove_ne s3.records o.logical l other ∙ (elim (Bool-cases (has kids l)) [
                | inl kid ↦ p3.inside l kid
                | inr no_kid ↦
                    p3.outside l no_kid
                    ∙ find-insert_ne s1.records o.logical l r' other
                    ∙ p1.inside l (ground arith)
              ])
        ];
        outside = λ l e.
            find-remove_ne s3.records o.logical l (ground arith)
            ∙ p3.outside l (ground arith)
            ∙ find-insert_ne s1.records o.logical l r' (ground arith)
            ∙ p1.outside l (ground arith);
        framed = p3.framed ∙ p1.framed;
        indexed = released-IsIndexed o rest s3 r' here3 order asc lists' p3.indexed;
      },
    )
