-- ===== src/Objects/Ages/Owners.antt =====
-- objects.rs: creating, owning and removing records ages the store.
use zebulon_lang.Prelude.{
  ◌-◌, [], ◌+◌, ◌^◌, ◌≡◌, refl, sym, ap, ◌∙◌, inl, inr, Option, none, some, List, ◌∷◌, ◌++◌, length,
  ltb, leb, arith, ◌==◌, Bool-cases, Option-cases, ==_iff,
}
use zebulon_lang.Prelude.Maps.{find, find-insert_self, find-insert_ne}
use zebulon_lang.Prelude.Exec.{◌>>◌, asks, modify}
use zebulon_lang.Errors.{ObjectRef, resource_limit, identity_exhausted}
use zebulon_lang.Objects.{Record, Store}
use zebulon_lang.Objects.Access.{record_of, ensure_active}
use zebulon_lang.Objects.Ages.{
  Ages, Ages-refl, Ages-aside, Ages-insert, Ages-trans, IsAging, bind-IsAging, asks-IsAging,
  edit-IsAging, if-Ages, if-IsAging, destroy-IsAging, drain-IsAging, failure-IsAging,
}
use zebulon_lang.Objects.Cycles.{prospective_cycle}
use zebulon_lang.Objects.Destroy.{edit, destroy, clear_roots}
use zebulon_lang.Objects.Owners.{
  is_text, scope, created, admit, create, take_out, hand_over, adopt, destroy_root, disown, despawn,
  fresh_record,
}

admit-Ages : (s : Store) → Ages s (admit s)
unfolding admit
admit-Ages s = record {
  session = refl;
  later = omega arith;
  aged = λ l r found alive. elim (Bool-cases ((created s).logical == l)) [
    | inl at ↦
        let at' : (created s).logical ≡ l = (==_iff (created s).logical l).0 at in
        let is : fresh_record s.next_identity s.default_lifetime ≡ r = cc (
          find-insert_self s.records (created s).logical
              (fresh_record s.next_identity s.default_lifetime),
          at',
          found,
        ) in
        inr (omega (arith, ap (λ (x : Record). x.incarnation) is))
    | inr other ↦
        inl (r, sym (find-insert_ne s.records (created s).logical l _ other) ∙ found, alive, refl)
  ];
}

pub create-IsAging : IsAging create
unfolding create
create-IsAging s = if-Ages s.terminal _ _ (Ages-refl s) (
    if-Ages (leb s.limits.objects (length s.records)) _ _
      (failure-IsAging ObjectRef resource_limit s)
      (if-Ages (ltb (2 ^ 32 - 1) (s.next_identity + 1)) _ _
        (failure-IsAging ObjectRef identity_exhausted s) (admit-Ages s)))

pub clear_roots-IsAging : IsAging clear_roots
unfolding clear_roots
clear_roots-IsAging s = drain-IsAging s.roots s

pub scope-IsAging : IsAging scope
unfolding scope
scope-IsAging =
    bind-IsAging {B = Unit {0}} (asks ensure_active) _ (asks-IsAging ensure_active)
      (λ _. clear_roots-IsAging)

hand_over-IsAging :
    (parent child : ObjectRef) (roots : List ObjectRef) → IsAging (hand_over parent child roots)
unfolding hand_over
hand_over-IsAging parent child roots =
    let owned : Record → Record = λ r. record r { parent = some parent } in
    let owner : Record → Record = λ r. record r { children = r.children ++ child ∷ [] } in
    bind-IsAging {B = Unit {0}} (modify (λ s. record s { roots = roots }))
      (λ _. edit child owned >> edit parent owner) (λ s. Ages-aside refl refl refl)
      (λ _.
        bind-IsAging {B = Unit {0}} (edit child owned) (λ _. edit parent owner)
          (edit-IsAging child owned (λ r. (refl, refl)))
          (λ _. edit-IsAging parent owner (λ r. (refl, refl))))

pub adopt-IsAging : (parent child : ObjectRef) → IsAging (adopt parent child)
unfolding adopt
adopt-IsAging parent child =
    bind-IsAging {B = Unit {0}} (asks ensure_active) _ (asks-IsAging ensure_active) (λ _.
      bind-IsAging {B = Unit {0}} (asks (λ s. record_of s child)) _
        (asks-IsAging (λ s. record_of s child))
        (λ _.
          bind-IsAging {B = Unit {0}} (asks (λ s. record_of s parent)) _
            (asks-IsAging (λ s. record_of s parent))
            (λ r.
              if-IsAging {A = Unit {0}} (is_text r) _ _ (λ s. Ages-refl s)
                (λ s. elim (Option-cases (take_out child s.roots)) [
                  | inl absent ↦ rw absent (Ages-refl s)
                  | inr (roots, e) ↦ rw e (
                      bind-IsAging {B = Unit {0}} (asks (λ s. prospective_cycle s parent child)) _
                        (asks-IsAging (λ s. prospective_cycle s parent child))
                        (λ cycle.
                          if-IsAging cycle _ _ (λ s. Ages-refl s)
                            (hand_over-IsAging parent child roots))
                        s)
                ]))))

pub destroy_root-IsAging : (o : ObjectRef) → IsAging (destroy_root o)
unfolding destroy_root
destroy_root-IsAging o =
    bind-IsAging {B = Unit {0}} (asks ensure_active) _ (asks-IsAging ensure_active) (λ _.
      bind-IsAging {B = Unit {0}} (asks (λ s. record_of s o)) _ (asks-IsAging (λ s. record_of s o))
        (λ _ s. elim (Option-cases (take_out o s.roots)) [
          | inl absent ↦ rw absent (Ages-refl s)
          | inr (roots, e) ↦ rw e (
              Ages-trans {u = record s { roots = roots }} (Ages-aside refl refl refl)
                (destroy-IsAging o (record s { roots = roots })))
        ]))

disown-Ages : (o : ObjectRef) (parent : Option ObjectRef) (s : Store) → Ages s (disown o parent s)
unfolding disown
disown-Ages o none s = Ages-refl s
disown-Ages o (some parent) s = elim (Option-cases (find s.records parent.logical)) [
  | inl gone ↦ rw (gone, disown) (Ages-refl s)
  | inr (r, here) ↦
      rw (here, disown)
        (elim (Option-cases (take_out o r.children)) [
          | inl absent ↦ rw (absent, disown) (Ages-refl s)
          | inr (children, e) ↦
              rw (e, disown)
                (Ages-insert parent r (record r { children = children }) refl refl here refl refl
                  (λ x. x))
        ])
]

pub despawn-IsAging : (o : ObjectRef) → IsAging (despawn o)
unfolding despawn
despawn-IsAging o =
    bind-IsAging {B = Unit {0}} (asks ensure_active) _ (asks-IsAging ensure_active) (λ _.
      bind-IsAging {B = Unit {0}} (asks (λ s. record_of s o)) _ (asks-IsAging (λ s. record_of s o))
        (λ r.
          bind-IsAging {B = Unit {0}}
            (modify (λ s. elim (take_out o s.roots) [
              | some roots ↦ record s { roots = roots }
              | none ↦ disown o r.parent s
            ]))
            (λ _. destroy o)
            (λ s. elim (Option-cases (take_out o s.roots)) [
              | inl absent ↦ rw (absent, modify) (disown-Ages o r.parent s)
              | inr (roots, e) ↦ rw (e, modify) (Ages-aside refl refl refl)
            ])
            (λ _. destroy-IsAging o)))
