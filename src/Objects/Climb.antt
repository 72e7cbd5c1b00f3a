-- ===== src/Objects/Climb.antt =====
-- objects.rs, `prospective_cycle` in a forest: the climb from a node leaves each tree at its root.
use zebulon_lang.Objects.Access.{record_of}
use zebulon_lang.Prelude.Exec.{◌>>=◌}
use zebulon_lang.Prelude.Maps.{Map}
use zebulon_lang.Prelude.{
  ==_iff, ==_self, ◌-◌, Bool, sym, ap, ◌+◌, ◌==◌, subst, arith, ◌≤◌, length, List, Bool-cases, ◌||◌,
  ◌∙◌, Option, ℕ, ◌≡◌, refl, none, some, true, false, ok, inl, inr, suc,
}
use zebulon_lang.Errors.{mem, ref_eq, ObjectRef, ref_eq_iff, ref_eq_self}
use zebulon_lang.Objects.{Store, Record}
use zebulon_lang.Objects.Cycles.{climbs, prospective_cycle}
use zebulon_lang.Objects.Ownership.{IsForest, IsNative, without, kids_of, tree_of, split}
use zebulon_lang.Objects.Forest.{Forest, empty, plant, roots, size, has, IsApart, IsNode, Holds}
use zebulon_lang.Objects.Graft.{occurs}
use zebulon_lang.Objects.Uproot.{record_of_node, room}

climb_step :
    (s : Store) (child o : ObjectRef) {parent : Option ObjectRef} {kids : List ObjectRef} (n : ℕ)
    → IsNode s.records parent o kids
    → o.session ≡ s.session
    → (o.logical == child.logical) ≡ false
    → climbs (suc n) s child (some o) ≡ climbs n s child parent
unfolding climbs
climb_step s child o n node native other =
    let differs : ref_eq o child ≡ false = ground (
      arith,
      ref_eq_iff o child,
      ==_iff o.logical child.logical,
      λ (same : o ≡ child). ap (λ (r : ObjectRef). r.logical) same,
    ) in
    simp (climbs, differs, record_of_node s node native, ◌>>=◌) (ap (climbs n s child) node.below)

-- From a node of a forest without `child` the climb comes to what is above the forest.
pub climb_out :
    (s : Store) (child x : ObjectRef) (f : Forest) (parent : Option ObjectRef)
    → Holds s.records parent f
    → IsNative s.session f
    → occurs f x ≡ true
    → has f child.logical ≡ false
    → (d : ℕ) × (d ≤ size f) × ((n : ℕ) → climbs (d + n) s child (some x) ≡ climbs n s child parent)
unfolding Holds IsNative occurs has
climb_out s child x empty parent h i e out = absurd (cc e)
climb_out s child x (plant o kids beside) parent (node, below, next)
      (native, native_kids, native_beside) e out =
    elim (Bool-cases (ref_eq o x)) [
      | inl here ↦
          let same : o ≡ x = (ref_eq_iff o x).0 here in
          (
            1,
            omega arith,
            λ n.
                ap (λ k. climbs k s child (some x)) (omega arith)
                ∙ ap (λ y. climbs (suc n) s child (some y)) (sym same)
                ∙ climb_step s child o n node native (ground arith),
          )
      | inr other ↦ elim (Bool-cases (occurs kids x)) [
        | inl under ↦
            let (d, fits, ran) =
              climb_out s child x kids (some o) below native_kids under (ground arith) in
            (
              d + 1,
              omega (arith, fits),
              λ n.
                  ap (λ k. climbs k s child (some x)) (omega arith)
                  ∙ ran (suc n)
                  ∙ climb_step s child o n node native (ground arith),
            )
        | inr elsewhere ↦
            let (d, fits, ran) =
              climb_out s child x beside parent next native_beside (ground arith) (ground arith) in
            (d, omega (arith, fits), ran)
      ]
    ]

pub occurs-split :
    (o x : ObjectRef) (f : Forest)
    → mem (roots f) o ≡ true
    → occurs f x ≡ (occurs (tree_of o f) x || occurs (without o f) x)
unfolding kids_of without mem occurs
occurs-split o x empty e = absurd (cc e)
occurs-split o x (plant p kids beside) e = elim (Bool-cases (ref_eq p o)) [
  | inl same ↦
      let p≡o : p ≡ o = (ref_eq_iff p o).0 same in
      rw same (ground (arith, ap (λ q. ref_eq q x) p≡o))
  | inr other ↦ rw other (ground (arith, occurs-split o x beside (ground arith)))
]

-- The record of a node, wherever it stands.
pub IsNode-occurs :
    (m : Map Record) (session : ℕ) (x : ObjectRef) (f : Forest) (parent : Option ObjectRef)
    → Holds m parent f
    → IsNative session f
    → occurs f x ≡ true
    → (above : Option ObjectRef) × (kids : List ObjectRef) × IsNode m above x kids
      × (x.session ≡ session)
unfolding Holds IsNative occurs
IsNode-occurs m session x empty parent h i e = absurd (cc e)
IsNode-occurs m session x (plant o kids beside) parent (node, below, next)
      (native, native_kids, native_beside) e =
    elim (Bool-cases (ref_eq o x)) [
      | inl here ↦
          subst
            (λ y.
              (above : Option ObjectRef) × (ks : List ObjectRef) × IsNode m above y ks
              × (y.session ≡ session))
            ((ref_eq_iff o x).0 here) (parent, roots kids, node, native)
      | inr other ↦ elim (Bool-cases (occurs kids x)) [
        | inl under ↦ IsNode-occurs m session x kids (some o) below native_kids under
        | inr elsewhere ↦ IsNode-occurs m session x beside parent next native_beside (ground arith)
      ]
    ]

cycle_run :
    (s : Store) (parent child : ObjectRef) (cycle : Bool) {r q : Record}
    → record_of s parent ≡ ok r
    → record_of s child ≡ ok q
    → climbs (suc (suc (length s.records))) s child (some parent) ≡ ok cycle
    → (s.pending == 0) ≡ true
    → prospective_cycle s parent child ≡ ok cycle
unfolding prospective_cycle
cycle_run s parent child true here there ran quiet = simp (here, there, ran, ◌>>=◌) refl
cycle_run s parent child false here there ran quiet = simp (here, there, ran, quiet, ◌>>=◌) refl

climb_top : (s : Store) (child : ObjectRef) (n : ℕ) → climbs (suc n) s child (some child) ≡ ok true
unfolding climbs
climb_top s child n = simp (climbs, ref_eq_self child) refl

climb_end : (s : Store) (child : ObjectRef) (n : ℕ) → climbs (suc n) s child none ≡ ok false
unfolding climbs
climb_end s child n = refl

module _ {s : Store} {f : Forest} (h : IsForest s f) where
  climbs_lem :
      (parent child : ObjectRef)
      → mem (roots f) child ≡ true
      → occurs f parent ≡ true
      → climbs (suc (suc (length s.records))) s child (some parent)
        ≡ ok (occurs (tree_of child f) parent)
  unfolding Holds IsNative IsApart occurs has
  climbs_lem parent child top inside =
      let d = split s.session s.records none child f top h.holds h.apart h.native in
      let n = length s.records in
      elim (Bool-cases (ref_eq child parent)) [
        | inl same ↦ rw same (
            subst (λ x. climbs (suc (suc n)) s child (some x) ≡ ok true)
              ((ref_eq_iff child parent).0 same) (climb_top s child (suc n)))
        | inr other ↦ rw other (elim (Bool-cases (occurs (kids_of child f) parent)) [
          | inl under ↦
              let (_, fits, _) =
                room (tree_of child f) s.records
                  (λ l e. h.complete l ∙ d.has_either l ∙ ground arith) d.apart_tree in
              let (k, bound, ran) =
                climb_out s child parent (kids_of child f) (some child) d.holds_tree.1
                  d.native_tree.1 under d.apart_tree.0 in
              let fuel : suc (suc n) ≡ k + suc (suc n - k) = omega (arith, fits, bound) in
              rw under (
                ap (λ m. climbs m s child (some parent)) fuel
                ∙ ran (suc (suc n - k))
                ∙ climb_top s child (suc n - k))
          | inr elsewhere ↦
              let (_, fits, _) =
                room (without child f) s.records
                  (λ l e. h.complete l ∙ d.has_either l ∙ ground arith) d.apart_rest in
              let (k, bound, ran) =
                climb_out s child parent (without child f) none d.holds_rest d.native_rest
                  (ground (arith, occurs-split child parent f top))
                  (d.disjoint child.logical (rw (==_self child.logical) refl)) in
              let fuel : suc (suc n) ≡ k + suc (suc n - k) = omega (arith, fits, bound) in
              rw elsewhere (
                ap (λ m. climbs m s child (some parent)) fuel
                ∙ ran (suc (suc n - k))
                ∙ climb_end s child (suc n - k))
        ])
      ]

  -- In a store that is a forest and where nothing is under construction, the search for a cycle ends
  -- on its fuel, and answers whether the new owner is a node of the tree that is to be transferred.
  pub prospective_cycle_lem :
      (parent child : ObjectRef)
      → s.pending ≡ 0
      → mem (roots f) child ≡ true
      → occurs f parent ≡ true
      → prospective_cycle s parent child ≡ ok (occurs (tree_of child f) parent)
  unfolding Holds IsNative
  prospective_cycle_lem parent child quiet top inside =
      let d = split s.session s.records none child f top h.holds h.apart h.native in
      let (_, _, node, native) =
        IsNode-occurs s.records s.session parent f none h.holds h.native inside in
      cycle_run s parent child (occurs (tree_of child f) parent) (record_of_node s node native)
        (record_of_node s d.holds_tree.0 d.native_tree.0) (climbs_lem parent child top inside)
        (ground (arith, quiet))
