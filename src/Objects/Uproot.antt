-- ===== src/Objects/Uproot.antt =====
-- objects.rs, `destroy` of a root: it comes to an end, without a panic, and takes its tree away.
use zebulon_lang.Objects.Owners.{take_out, destroy_root}
use zebulon_lang.Prelude.Maps.{find-remove_ne, remove, length-remove_present, find, Map}
use zebulon_lang.Objects.{Fault, fail, enter, Record, Store}
use zebulon_lang.Objects.Access.{ensure_active, record_of}
use zebulon_lang.Objects.Destroy.{destroy, cleanup_loop}
use zebulon_lang.Prelude.{
  if◌then◌else◌, Result, subst, sym, ◌-◌, Option-cases, ◌*◌, Bool-cases, arith, ◌≤◌, ◌∙◌, ◌+◌, ◌∷◌,
  ==_self, ap, length, List, ◌≡◌, Option, ℕ, refl, none, some, true, false, ok, [], inl, inr, suc,
}
use zebulon_lang.Errors.{not_owned, ObjectRef, mem}
use zebulon_lang.Objects.Ownership.{IsNative, IsForest, without, tree_of, split}
use zebulon_lang.Objects.Forest.{
  IsNode, Forest, empty, plant, roots, size, has, IsApart, Holds, Holds-agree, IsIndexed, is_some,
}
use zebulon_lang.Objects.Purge.{frame, purge}

-- A store holds as many records as a forest of it has nodes, at least: taking them out one by one
-- leaves the others.
pub room :
    (f : Forest) (m : Map Record)
    → ((l : ℕ) → has f l ≡ true → is_some (find m l) ≡ true)
    → IsApart f
    → (m' : Map Record) × (length m' + size f ≤ length m)
      × ((l : ℕ) → has f l ≡ false → find m' l ≡ find m l)
unfolding has IsApart
room empty m inside a = (m, omega arith, λ l e. refl)
room (plant o kids beside) m inside (o∉kids, o∉beside, disjoint, apart_kids, apart_beside) =
    let (m1, fits1, same1) = room kids m (λ l e. inside l (ground arith)) apart_kids in
    let (m2, fits2, same2) =
      room beside m1
        (λ l e.
          ap is_some (
            same1 l (elim (Bool-cases (has kids l)) [
              | inl kid ↦ absurd (cc (disjoint l kid, e))
              | inr other ↦ other
            ]))
          ∙ inside l (ground arith))
        apart_beside in
    let here : find m2 o.logical ≡ find m o.logical =
      same2 o.logical o∉beside ∙ same1 o.logical o∉kids in
    let used : is_some (find m o.logical) ≡ true = inside o.logical (rw (==_self o.logical) refl) in
    elim (Option-cases (find m o.logical)) [
      | inl gone ↦ absurd (cc (used, ap is_some gone))
      | inr (r, e) ↦
          let less = length-remove_present m2 o.logical (here ∙ e) in
          (
            remove o.logical m2,
            omega (arith, fits1, fits2, less),
            λ l e'.
                find-remove_ne m2 o.logical l (ground arith)
                ∙ same2 l (ground arith)
                ∙ same1 l (ground arith),
          )
    ]

-- A node's reference reads its record.
pub record_of_node :
    (s : Store) {parent : Option ObjectRef} {o : ObjectRef} {kids : List ObjectRef}
    (node : IsNode s.records parent o kids)
    → o.session ≡ s.session
    → record_of s o ≡ ok node.held
unfolding record_of
record_of_node s {parent} {o} {kids} node native =
    rw (native, ==_self s.session, node.here, node.lives, node.ages, ==_self o.incarnation) refl

pub active_lem : (s : Store) → s.terminal ≡ false → ensure_active s ≡ ok tt
active_lem s active = rw active refl

destroy_root_run :
    (s : Store) (o : ObjectRef) {r : Record} {rest : List ObjectRef}
    → s.terminal ≡ false
    → record_of s o ≡ ok r
    → take_out o s.roots ≡ some rest
    → destroy_root o s ≡ destroy o (record s { roots = rest })
unfolding destroy_root
destroy_root_run s o active here taken =
    rw (active_lem s active, here)
      (ap
        (λ (listed : Option (List ObjectRef)).
          elim listed as (λ _. Result Fault (Unit {0}) × Store) [
            | none ↦ fail {A = Unit {0}} not_owned s
            | some rest ↦ destroy o (record s { roots = rest })
          ])
        taken)

loop_idle : (n : ℕ) (u : Store) → u.cleanup ≡ [] → cleanup_loop (suc n) u ≡ (ok tt, u)
unfolding cleanup_loop
loop_idle n u e = simp (e, cleanup_loop) refl

module _ {s : Store} {f : Forest} (h : IsForest s f) where
  -- `Store::destroy` of a root that was taken off the list of roots.
  pub destroy_lem :
      (o : ObjectRef)
      → mem (roots f) o ≡ true
      → (u : Store) × (destroy o (record s { roots = roots (without o f) }) ≡ (ok tt, u))
        × IsForest u (without o f)
        × ((l : ℕ) → has (tree_of o f) l ≡ true → find u.records l ≡ none)
        × ((l : ℕ) → has (tree_of o f) l ≡ false → find u.records l ≡ find s.records l)
        × (frame u ≡ frame (record s { roots = roots (without o f) }))
  unfolding destroy
  destroy_lem o top =
      let t = tree_of o f in
      let w = without o f in
      let d = split s.session s.records none o f top h.holds h.apart h.native in
      let s0 = record s { roots = roots w; cleanup = enter o ∷ s.cleanup } in
      let (m', fits, _) =
        room t s.records (λ l e. h.complete l ∙ ground (arith, d.has_either l)) d.apart_tree in
      let n = 2 * length s.records - 2 * size t in
      let fuel : suc (2 * length s.records) ≡ 2 * size t + suc n = omega (arith, fits) in
      let i = h.indexed in
      let i0 : IsIndexed s0 = record {
        ascending = i.ascending;
        lists_all = i.lists_all;
        distinct = i.distinct;
        unused = i.unused;
        issued = i.issued;
      } in
      let (u, ran, idle, p) =
        purge t none s0 [] (suc n) d.holds_tree d.apart_tree i0 (ap (λ c. enter o ∷ c) h.idle) in
      (
        u,
        ap (λ k. cleanup_loop k s0) fuel ∙ ran ∙ loop_idle n u idle,
        record {
          rooted = ap (λ (x : Store). x.roots) p.framed;
          holds =
              Holds-agree s.records u.records none w
                (λ l e. p.outside l (ground (arith, d.disjoint l))) d.holds_rest;
          apart = d.apart_rest;
          complete = λ l. elim (Bool-cases (has t l)) [
            | inl gone ↦ ap is_some (p.inside l gone) ∙ sym (d.disjoint l gone)
            | inr stays ↦
                ap is_some (p.outside l stays) ∙ h.complete l ∙ ground (arith, d.has_either l)
          ];
          native =
              subst (λ x. IsNative x w) (sym (ap (λ (x : Store). x.session) p.framed))
                d.native_rest;
          indexed = p.indexed;
          idle = idle;
        },
        p.inside,
        p.outside,
        p.framed,
      )

  -- In a store that is a forest and not terminal, destroying a root succeeds: the loop ends on its
  -- fuel and no `expect` fails. The store afterwards is the forest without the root's tree, the
  -- records of the tree are gone and all other records are as they were.
  pub destroy_root-IsForest :
      (o : ObjectRef)
      → s.terminal ≡ false
      → mem (roots f) o ≡ true
      → (u : Store) × (destroy_root o s ≡ (ok tt, u))
        × IsForest u (without o f)
        × ((l : ℕ) → find u.records l ≡ (if has (tree_of o f) l then none else find s.records l))
  unfolding Holds IsNative
  destroy_root-IsForest o active top =
      let d = split s.session s.records none o f top h.holds h.apart h.native in
      let (u, ran, forest, gone, kept, _) = destroy_lem o top in
      let taken : take_out o s.roots ≡ some (roots (without o f)) =
        ap (take_out o) h.rooted ∙ d.taken in
      (
        u,
        destroy_root_run s o active (record_of_node s d.holds_tree.0 d.native_tree.0) taken ∙ ran,
        forest,
        λ l. elim (Bool-cases (has (tree_of o f) l)) [
          | inl below ↦ rw below (gone l below)
          | inr apart ↦ rw apart (kept l apart)
        ],
      )
