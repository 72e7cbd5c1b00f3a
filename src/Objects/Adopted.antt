-- ===== src/Objects/Adopted.antt =====
-- objects.rs, `adopt`: the tree of a root goes below its new owner, unless that is a node of it.
use zebulon_lang.Objects.Climb.{prospective_cycle_lem, IsNode-occurs, occurs-split}
use zebulon_lang.Objects.Destroy.{edit}
use zebulon_lang.Prelude.Exec.{◌>>◌, ◌>>=◌}
use zebulon_lang.Objects.Access.{record_of}
use zebulon_lang.Prelude.Maps.{find-insert_self, find-insert_ne, insert, find, Map}
use zebulon_lang.Prelude.{
  err, [], ◌∷◌, none, subst, ==_iff, arith, ◌∙◌, sym, ap, Bool-cases, ◌==◌, if◌then◌else◌, Bool,
  ◌++◌, ◌≡◌, ℕ, List, refl, some, true, false, ok, inl, inr,
}
use zebulon_lang.Errors.{mem, ObjectRef, ownership_cycle}
use zebulon_lang.Objects.{returned, Store, Record, fail}
use zebulon_lang.Objects.Cycles.{prospective_cycle}
use zebulon_lang.Objects.Owners.{adopt, hand_over, is_text, take_out}
use zebulon_lang.Objects.Ownership.{kids_of, split, without, tree_of, IsForest, IsNative}
use zebulon_lang.Objects.Forest.{is_some, Forest, roots, has, IsApart, Holds, Holds-agree}
use zebulon_lang.Objects.Graft.{
  graft-IsNative, has-graft, graft-IsApart, occurs-has, occurs, graft, roots-graft,
}
use zebulon_lang.Objects.Uproot.{record_of_node, active_lem}
use zebulon_lang.Objects.Graft.Records.{graft-Holds}

module _ (s : Store) (parent child : ObjectRef) {r q : Record} {rest : List ObjectRef}
    (active : s.terminal ≡ false) (there : record_of s child ≡ ok q)
    (here : record_of s parent ≡ ok r) (plain : is_text r ≡ false)
    (taken : take_out child s.roots ≡ some rest) where
  adopt_run :
      (cycle : Bool)
      → prospective_cycle s parent child ≡ ok cycle
      → adopt parent child s
        ≡ (if cycle then fail {A = Unit {0}} ownership_cycle else hand_over parent child rest) s
  unfolding adopt find take_out
  adopt_run true searched =
      simp (active_lem s active, there, here, plain, taken, searched, ◌>>=◌) refl
  adopt_run false searched =
      simp (active_lem s active, there, here, plain, taken, searched, ◌>>=◌) refl

hand_over_run :
    (s : Store) (parent child : ObjectRef) (rest : List ObjectRef) {c r : Record}
    → find s.records child.logical ≡ some c
    → find (insert child.logical (record c { parent = some parent }) s.records) parent.logical
      ≡ some r
    → hand_over parent child rest s ≡ (
      ok tt,
      record s {
        roots = rest;
        records =
            insert parent.logical
              (record r { children = r.children ++ child ∷ [] })
              (insert child.logical (record c { parent = some parent }) s.records);
      },
    )
unfolding hand_over edit
hand_over_run s parent child rest there here = simp (there, here, edit, ◌>>=◌, ◌>>◌) refl

-- Writing a record again does not change which slots are used.
find-insert_again :
    (m : Map Record) (k l : ℕ) (v : Record) {w : Record}
    → find m k ≡ some w
    → is_some (find (insert k v m) l) ≡ is_some (find m l)
find-insert_again m k l v here = elim (Bool-cases (k == l)) [
  | inl at ↦
      subst (λ j. is_some (find (insert k v m) j) ≡ is_some (find m j)) ((==_iff k l).0 at)
        (rw (here, find-insert_self m k v) refl)
  | inr other ↦ ap is_some (find-insert_ne m k l v other)
]

module _ {s : Store} {f : Forest} (h : IsForest s f) where
  -- What `adopt` makes of the records.
  hand_over-IsForest :
      (parent child : ObjectRef)
      → mem (roots f) child ≡ true
      → occurs f parent ≡ true
      → occurs (tree_of child f) parent ≡ false
      → (u : Store) × (hand_over parent child (roots (without child f)) s ≡ (ok tt, u))
        × IsForest u (graft parent (tree_of child f) (without child f))
  unfolding hand_over edit Holds IsNative IsApart occurs has
  hand_over-IsForest parent child top inside outside =
      let t = tree_of child f in
      let w = without child f in
      let d = split s.session s.records none child f top h.holds h.apart h.native in
      let inside' : occurs w parent ≡ true = ground (arith, occurs-split child parent f top) in
      let (above, kids, node, native) =
        IsNode-occurs s.records s.session parent w none d.holds_rest d.native_rest inside' in
      let c = d.holds_tree.0 in
      let parent_in_w : has w parent.logical ≡ true = occurs-has w parent inside' in
      let t_free : has t parent.logical ≡ false = (elim (Bool-cases (has t parent.logical)) [
        | inl both ↦ absurd (cc (d.disjoint parent.logical both, parent_in_w))
        | inr other ↦ other
      ]) in
      let child≠parent : (child.logical == parent.logical) ≡ false = ground (arith, t_free) in
      let parent≠child : (parent.logical == child.logical) ≡ false = ground (
        arith,
        child≠parent,
        ==_iff child.logical parent.logical,
        ==_iff parent.logical child.logical,
      ) in
      let q = record c.held { parent = some parent } in
      let r = record node.held { children = node.held.children ++ child ∷ [] } in
      let m = s.records in
      let m1 = insert child.logical q m in
      let m2 = insert parent.logical r m1 in
      let here1 : find m1 parent.logical ≡ some node.held =
        find-insert_ne m child.logical parent.logical q child≠parent ∙ node.here in
      let agree : (l : ℕ)
          → (child.logical == l) ≡ false
          → (parent.logical == l) ≡ false
          → find m2 l ≡ find m l =
        λ l e e'. find-insert_ne m1 parent.logical l r e' ∙ find-insert_ne m child.logical l q e in
      let used : (l : ℕ) → is_some (find m2 l) ≡ is_some (find m l) = λ l.
        find-insert_again m1 parent.logical l r here1
        ∙ find-insert_again m child.logical l q c.here in
      let kids_free : has (kids_of child f) parent.logical ≡ false = ground (arith, t_free) in
      let has_kid : (l : ℕ) → has (kids_of child f) l ≡ true → find m2 l ≡ find m l = λ l e.
        agree l
          (elim (Bool-cases (child.logical == l)) [
            | inl at ↦
                absurd (
                  cc
                    (ap (has (kids_of child f)) ((==_iff child.logical l).0 at), d.apart_tree.0, e))
            | inr other ↦ other
          ])
          (elim (Bool-cases (parent.logical == l)) [
            | inl at ↦
                absurd
                  (cc (ap (has (kids_of child f)) ((==_iff parent.logical l).0 at), e, kids_free))
            | inr other ↦ other
          ]) in
      let there2 : find m2 child.logical ≡ some q =
        find-insert_ne m1 parent.logical child.logical r parent≠child
        ∙ find-insert_self m child.logical q in
      let held_tree : Holds m2 (some parent) t = (
        record {
          held = q;
          here = there2;
          ages = c.ages;
          lives = c.lives;
          below = refl;
          owns = c.owns;
        },
        Holds-agree m m2 (some child) (kids_of child f) has_kid d.holds_tree.1,
        tt,
      ) in
      let i = h.indexed in
      (
        record s { roots = roots w; records = m2 },
        hand_over_run s parent child (roots w) c.here here1,
        record {
          rooted = sym (roots-graft parent t w);
          holds =
              graft-Holds m m2 s.session parent t node.held r node.here
                (find-insert_self m1 parent.logical r) node.ages native refl refl refl refl
                held_tree none w
                (λ l e e'.
                  agree l
                    (elim (Bool-cases (child.logical == l)) [
                      | inl at ↦ absurd (cc (d.disjoint l (ground (arith, at)), e))
                      | inr other ↦ other
                    ])
                    e')
                d.holds_rest d.apart_rest d.native_rest;
          apart = graft-IsApart parent t w d.apart_rest d.apart_tree (λ l e.
              elim (Bool-cases (has t l)) [
                | inl both ↦ absurd (cc (d.disjoint l both, e))
                | inr other ↦ other
              ]);
          complete = λ l.
              used l
              ∙ h.complete l
              ∙ ground (arith, d.has_either l, has-graft parent t w d.apart_rest l, inside');
          native = graft-IsNative s.session parent t w d.native_rest d.native_tree;
          indexed = record {
            ascending = i.ascending;
            lists_all = λ l. i.lists_all l ∙ sym (used l);
            distinct = i.distinct;
            unused = λ l e. used l ∙ i.unused l e;
            issued = λ l e. i.issued l (rw⁻¹ (used l) e);
          };
          idle = h.idle;
        },
      )

  -- In a store that is a forest, is not terminal, and where nothing is under construction, giving a
  -- root to a record that is no text and no node of the root's tree succeeds, and the store is then
  -- the forest with that tree below the new owner, after what it owned before.
  pub adopt-IsForest :
      (parent child : ObjectRef) {r : Record}
      → s.terminal ≡ false
      → s.pending ≡ 0
      → mem (roots f) child ≡ true
      → occurs f parent ≡ true
      → record_of s parent ≡ ok r
      → is_text r ≡ false
      → occurs (tree_of child f) parent ≡ false
      → (u : Store) × (adopt parent child s ≡ (ok tt, u))
        × IsForest u (graft parent (tree_of child f) (without child f))
  unfolding Holds IsNative
  adopt-IsForest parent child active quiet top inside here plain outside =
      let d = split s.session s.records none child f top h.holds h.apart h.native in
      let (u, ran, forest) = hand_over-IsForest parent child top inside outside in
      (
        u,
        adopt_run s parent child active (record_of_node s d.holds_tree.0 d.native_tree.0) here plain
              (ap (take_out child) h.rooted ∙ d.taken) false
              (prospective_cycle_lem h parent child quiet top inside ∙ ap ok outside)
            ∙ ran,
        forest,
      )

  -- In a store that is a forest, is not terminal, and where nothing is under construction, giving a
  -- root to a record of its own tree that is no text (to itself, or to one that it owns at any depth)
  -- is refused as `ownership_cycle`, and nothing is changed.
  pub adopt-cycle :
      (parent child : ObjectRef) {r : Record}
      → s.terminal ≡ false
      → s.pending ≡ 0
      → mem (roots f) child ≡ true
      → occurs f parent ≡ true
      → record_of s parent ≡ ok r
      → is_text r ≡ false
      → occurs (tree_of child f) parent ≡ true
      → adopt parent child s ≡ (err (returned ownership_cycle), s)
  unfolding Holds IsNative
  adopt-cycle parent child active quiet top inside here plain under =
      let d = split s.session s.records none child f top h.holds h.apart h.native in
      adopt_run s parent child active (record_of_node s d.holds_tree.0 d.native_tree.0) here plain
        (ap (take_out child) h.rooted ∙ d.taken) true
        (prospective_cycle_lem h parent child quiet top inside ∙ ap ok under)
