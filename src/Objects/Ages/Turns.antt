-- ===== src/Objects/Ages/Turns.antt =====
-- objects.rs and objects/history.rs: cleared and reverted properties, statics, lifetimes and the end
-- of a turn age the store.
use zebulon_lang.Objects.Destroy.{destroy, edit}
use zebulon_lang.Objects.Owners.{take_out}
use zebulon_lang.Objects.Fields.{promote}
use zebulon_lang.Objects.Access.{is_valid, ensure_active, record_of}
use zebulon_lang.Prelude.Exec.{◌>>◌, modify, asks}
use zebulon_lang.Prelude.Maps.{contains_key, find, remove}
use zebulon_lang.Tables.{Tables}
use zebulon_lang.Errors.{resource_limit, ObjectRef}
use zebulon_lang.Objects.{Change, Store, PropertyDelta, Lifetime, Record, ContainerDelta}
use zebulon_lang.Objects.Writes.{
  revert_all, journal_write, revert_properties, drop_owned, restore_property, clear_property,
}
use zebulon_lang.Objects.Turns.{
  without_root, turn_records, bind_static, release_each, promote_each, mark_class,
  release_turn_records, set_lifetime,
}
use zebulon_lang.Prelude.{
  [], ◌+◌, length, not, ◌-◌, leb, Result-cases, Option-cases, Bool-cases, ◌∷◌, ℕ, List, suc, ◌≡◌,
  refl, inl, inr, true, false, none, some,
}
use zebulon_lang.Objects.Ages.{
  Ages, Ages-refl, Ages-aside, Ages-insert, Ages-trans, IsAging, bind-IsAging, asks-IsAging,
  edit-IsAging, if-Ages, if-IsAging, destroy-IsAging, failure-IsAging,
}
use zebulon_lang.Objects.Ages.Writes.{
  record_of_found, journal_write-IsAging, set-IsAging, promote-IsAging,
}
use zebulon_lang.Objects.History.{revert_containers, revert_container, put_back}

drop_owned-IsAging : (o : ObjectRef) (p : ℕ) → IsAging (drop_owned o p)
unfolding drop_owned
drop_owned-IsAging o p =
    bind-IsAging {B = Unit {0}} (asks (λ s. record_of s o)) _ (asks-IsAging (λ s. record_of s o))
      (λ r u. elim (Option-cases (find r.owned_value_fields p)) [
        | inl free ↦ rw free (Ages-refl u)
        | inr (previous, e) ↦
            let freed : Record → Record = λ r. record r {
              owned_value_fields = remove p r.owned_value_fields;
              children = elim (take_out previous r.children) [ none ↦ r.children | some cs ↦ cs ];
            } in
            rw e (
              bind-IsAging {B = Unit {0}} (edit o freed) (λ _. destroy previous)
                (edit-IsAging o freed (λ r. (refl, refl))) (λ _. destroy-IsAging previous) u)
      ])

pub clear_property-IsAging : (o : ObjectRef) (p : ℕ) → IsAging (clear_property o p)
unfolding clear_property
clear_property-IsAging o p =
    let cleared : Record → Record = λ r. record r { properties = remove p r.properties } in
    let uncount : Change Unit = modify (λ s. record s { properties = s.properties - 1 }) in
    bind-IsAging {B = Unit {0}} (asks ensure_active) _ (asks-IsAging ensure_active) (λ _.
      bind-IsAging {B = Unit {0}} (asks (λ s. record_of s o)) _ (asks-IsAging (λ s. record_of s o))
        (λ r.
          if-IsAging {A = Unit {0}} (not (contains_key r.properties p)) _ _ (λ u. Ages-refl u)
            (bind-IsAging {B = Unit {0}} (journal_write o p)
              (λ _. drop_owned o p >> (edit o cleared >> uncount)) (journal_write-IsAging o p)
              (λ _.
                bind-IsAging {B = Unit {0}} (drop_owned o p) (λ _. edit o cleared >> uncount)
                  (drop_owned-IsAging o p)
                  (λ _.
                    bind-IsAging {B = Unit {0}} (edit o cleared) (λ _. uncount)
                      (edit-IsAging o cleared (λ r. (refl, refl)))
                      (λ _ u. Ages-aside refl refl refl))))))

restore-IsAging : (tables : Tables) (d : PropertyDelta) → IsAging (restore_property tables d)
unfolding restore_property
restore-IsAging tables d s = elim (Option-cases d.previous) [
  | inl absent ↦ rw (absent, restore_property) (clear_property-IsAging d.object d.property s)
  | inr (v, e) ↦ rw (e, restore_property) (set-IsAging tables d.object d.property v s)
]

revert_all-Ages :
    (tables : Tables) (ds : List PropertyDelta) (count : ℕ) (s : Store)
    → Ages s (revert_all tables ds count s).1
unfolding revert_all
revert_all-Ages tables [] count s = Ages-refl s
revert_all-Ages tables (d ∷ ds) count s = elim (Bool-cases (is_valid s d.object)) [
  | inr gone ↦ rw (gone, revert_all) (revert_all-Ages tables ds count s)
  | inl there ↦
      rw (there, revert_all)
        (Ages-trans {u = (restore_property tables d s).1} (restore-IsAging tables d s)
          (revert_all-Ages tables ds _ (restore_property tables d s).1))
]

pub revert_properties-Ages :
    (tables : Tables) (ds : List PropertyDelta) (s : Store)
    → Ages s (revert_properties tables ds s).1
unfolding revert_properties
revert_properties-Ages tables ds s =
    let start = record s { journalling = false } in
    let u = (revert_all tables ds 0 start).1 in
    Ages-trans {u = start} (Ages-aside refl refl refl)
      (Ages-trans {u = u} (revert_all-Ages tables ds 0 start) (Ages-aside refl refl refl))

revert_container-Ages :
    (d : ContainerDelta) (r : Record) (s : Store)
    → find s.records d.object.logical ≡ some r
    → Ages s (revert_container d r s)
unfolding revert_container
revert_container-Ages d r s here =
    Ages-insert d.object r (put_back d r) refl refl here refl refl (λ x. x)

pub revert_containers-Ages :
    (ds : List ContainerDelta) (count : ℕ) (s : Store) → Ages s (revert_containers ds count s).1
unfolding revert_containers
revert_containers-Ages [] count s = Ages-refl s
revert_containers-Ages (d ∷ ds) count s = elim (Result-cases (record_of s d.object)) [
  | inl (e, gone) ↦ rw (gone, revert_containers) (revert_containers-Ages ds count s)
  | inr (r, there) ↦
      rw (there, revert_containers)
        (Ages-trans {u = revert_container d r s}
          (revert_container-Ages d r s (record_of_found s d.object r there))
          (revert_containers-Ages ds (suc count) (revert_container d r s)))
]

pub bind_static-IsAging : (slot : ℕ) (o : ObjectRef) → IsAging (bind_static slot o)
unfolding bind_static
bind_static-IsAging slot o =
    bind-IsAging {B = Unit {0}} (asks ensure_active) _ (asks-IsAging ensure_active) (λ _.
      bind-IsAging {B = Unit {0}} (asks (λ s. record_of s o)) _ (asks-IsAging (λ s. record_of s o))
        (λ _ u. if-Ages (contains_key u.statics slot) _ _ (Ages-refl u) (
          if-Ages (leb u.limits.objects (length u.statics)) _ _
            (failure-IsAging Unit resource_limit u) (Ages-aside refl refl refl))))

pub mark_class-IsAging : (o : ObjectRef) → IsAging (mark_class o)
unfolding mark_class
mark_class-IsAging o =
    bind-IsAging {B = Unit {0}} (asks ensure_active) _ (asks-IsAging ensure_active) (λ _.
      bind-IsAging {B = Unit {0}} (asks (λ s. record_of s o)) _ (asks-IsAging (λ s. record_of s o))
        (λ _. edit-IsAging o (λ r. record r { is_class = true }) (λ r. (refl, refl))))

pub set_lifetime-IsAging : (o : ObjectRef) (l : Lifetime) → IsAging (set_lifetime o l)
unfolding set_lifetime
set_lifetime-IsAging o l =
    bind-IsAging {B = Unit {0}} (asks (λ s. record_of s o)) _ (asks-IsAging (λ s. record_of s o))
      (λ _. edit-IsAging o (λ r. record r { lifetime = l }) (λ r. (refl, refl)))

promote_each-IsAging : (held : List ObjectRef) → IsAging (promote_each held)
unfolding promote_each
promote_each-IsAging [] s = Ages-refl s
promote_each-IsAging (o ∷ held) s =
    bind-IsAging {B = Unit {0}} (promote o) (λ _. promote_each held) (promote-IsAging o)
      (λ _. promote_each-IsAging held) s

release_each-IsAging : (free : List ObjectRef) (count : ℕ) → IsAging (release_each free count)
unfolding release_each
release_each-IsAging [] count s = Ages-refl s
release_each-IsAging (o ∷ os) count s = elim (Bool-cases (contains_key s.records o.logical)) [
  | inr gone ↦ rw (gone, release_each) (release_each-IsAging os count s)
  | inl there ↦
      rw (there, release_each)
        (bind-IsAging {B = ℕ} (modify (λ s. record s { roots = without_root o s.roots }))
          (λ _. destroy o >> λ u. release_each os (count + (length s.records - length u.records)) u)
          (λ u. Ages-aside refl refl refl)
          (λ _.
            bind-IsAging {B = ℕ} (destroy o)
              (λ _ u. release_each os (count + (length s.records - length u.records)) u)
              (destroy-IsAging o) (λ _ u. release_each-IsAging os _ u))
          s)
]

pub release_turn_records-IsAging : IsAging release_turn_records
unfolding release_turn_records
release_turn_records-IsAging =
    bind-IsAging {B = ℕ} (asks ensure_active) _ (asks-IsAging ensure_active) (λ _ s.
      bind-IsAging {B = ℕ} (promote_each (turn_records s s.records).0)
        (λ _. release_each (turn_records s s.records).1 0)
        (promote_each-IsAging (turn_records s s.records).0)
        (λ _. release_each-IsAging (turn_records s s.records).1 0) s)
