-- ===== src/Objects/Ownership.antt =====
-- objects.rs: the store as a forest of owners, one tree for each root.
use zebulon_lang.Prelude.Maps.{find, Map}
use zebulon_lang.Objects.Owners.{take_out}
use zebulon_lang.Objects.{Record, Store}
use zebulon_lang.Errors.{ref_eq_self, ref_eq_iff, ref_eq, ObjectRef}
use zebulon_lang.Errors.{mem}
use zebulon_lang.Prelude.{
  refl, none, some, true, false, inr, ◌∙◌, ==_iff, sym, ap, ◌==◌, arith, subst, inl, Bool-cases,
  false, true, ◌||◌, some, Option, none, if◌then◌else◌, ◌≡◌, ℕ, [],
}
use zebulon_lang.Objects.Forest.{
  Forest, empty, plant, roots, has, IsApart, Holds, is_some, IsIndexed,
}

-- Every reference of the forest is one of the session.
unfoldable pub IsNative : ℕ → Forest → Type 0
IsNative session empty = Unit
IsNative session (plant o kids beside) =
    (o.session ≡ session) × IsNative session kids × IsNative session beside

-- The records of a store are the nodes of the forest, no more and no fewer, its roots are the roots,
-- and no cleanup is under way.
pub record IsForest (s : Store) (f : Forest) : Type 0 where
  pub rooted : s.roots ≡ roots f
  pub holds : Holds s.records none f
  pub apart : IsApart f
  pub complete : (l : ℕ) → is_some (find s.records l) ≡ has f l
  pub native : IsNative s.session f
  pub indexed : IsIndexed s
  pub idle : s.cleanup ≡ []

-- What a root owns, and the forest without its tree.
unfoldable pub kids_of : ObjectRef → Forest → Forest
kids_of o empty = empty
kids_of o (plant p kids beside) = let rest = kids_of o beside in if ref_eq p o then kids else rest

unfoldable pub without : ObjectRef → Forest → Forest
without o empty = empty
without o (plant p kids beside) =
    let rest = without o beside in if ref_eq p o then beside else plant p kids rest

abbrev pub tree_of : ObjectRef → Forest → Forest
tree_of o f = plant o (kids_of o f) empty

-- A forest is the tree of one of its roots and the rest.
pub record Split (session : ℕ) (m : Map Record) (parent : Option ObjectRef) (o : ObjectRef)
    (f t w : Forest) : Type 0 where
  pub taken : take_out o (roots f) ≡ some (roots w)
  pub has_either : (l : ℕ) → has f l ≡ (has t l || has w l)
  pub disjoint : (l : ℕ) → has t l ≡ true → has w l ≡ false
  pub apart_tree : IsApart t
  pub apart_rest : IsApart w
  pub holds_tree : Holds m parent t
  pub holds_rest : Holds m parent w
  pub native_tree : IsNative session t
  pub native_rest : IsNative session w

pub split :
    (session : ℕ) (m : Map Record) (parent : Option ObjectRef) (o : ObjectRef) (f : Forest)
    → mem (roots f) o ≡ true
    → Holds m parent f
    → IsApart f
    → IsNative session f
    → Split session m parent o f (tree_of o f) (without o f)
unfolding kids_of without mem Holds IsApart IsNative has take_out
split session m parent o empty e h a i = absurd (cc e)
split session m parent o (plant p kids beside) e (node, below, next)
      (p∉kids, p∉beside, disjoint, apart_kids, apart_beside) (native, native_kids, native_beside) =
    elim (Bool-cases (ref_eq p o)) [
      | inl same ↦
          let p≡o : p ≡ o = (ref_eq_iff p o).0 same in
          rw same (
            subst (λ q. Split session m parent q (plant p kids beside) (plant q kids empty) beside)
              p≡o
              (record {
                taken = rw (ref_eq_self p) refl;
                has_either = λ l. ground arith;
                disjoint = λ l e'. elim (Bool-cases (p.logical == l)) [
                  | inl at ↦ ap (has beside) (sym ((==_iff p.logical l).0 at)) ∙ p∉beside
                  | inr other ↦ disjoint l (ground arith)
                ];
                apart_tree = (p∉kids, refl, (λ l e'. refl), apart_kids, tt);
                apart_rest = apart_beside;
                holds_tree = (node, below, tt);
                holds_rest = next;
                native_tree = (native, native_kids, tt);
                native_rest = native_beside;
              }))
      | inr other ↦
          let r = split session m parent o beside (ground arith) next apart_beside native_beside in
          rw other (record {
            taken = rw (other, r.taken) refl;
            has_either = λ l. ground (arith, r.has_either l);
            disjoint = λ l e'. elim (Bool-cases (p.logical == l)) [
              | inl at ↦
                  absurd
                    (cc (ap (has beside) ((==_iff p.logical l).0 at), p∉beside, r.has_either l, e'))
              | inr other' ↦ ground (arith, disjoint l, r.has_either l, r.disjoint l)
            ];
            apart_tree = r.apart_tree;
            apart_rest = (
              p∉kids,
              ground (arith, r.has_either p.logical),
              (λ l e'. ground (arith, r.has_either l, disjoint l)),
              apart_kids,
              r.apart_rest,
            );
            holds_tree = r.holds_tree;
            holds_rest = (node, below, r.holds_rest);
            native_tree = r.native_tree;
            native_rest = (native, native_kids, r.native_rest);
          })
    ]
