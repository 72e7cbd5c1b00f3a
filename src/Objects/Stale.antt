-- ===== src/Objects/Stale.antt =====
-- objects.rs: a sequence of calls on a store, and what becomes of old references in it.
use zebulon_lang.Prelude.{
  ==_iff, sym, ◌*◌, ◌+◌, ==_self, ◌∙◌, ℕ, ◌<◌, ◌≡◌, refl, inl, inr, Bool, true, ◌&&◌, none, List,
  [], ◌∷◌, ok, arith, ◌==◌, Bool-cases, Option-cases, ◌%◌, ◌/◌, ◌^◌,
}
use zebulon_lang.Prelude.Maps.{find}
use zebulon_lang.Errors.{ObjectRef, handle, expired, IsIssued}
use zebulon_lang.Tables.{Tables}
use zebulon_lang.Objects.{Value, Lifetime, PropertyDelta, ContainerDelta, Store, refuse}
use zebulon_lang.Objects.Access.{record_of, native_reference, reference, current}
use zebulon_lang.Objects.Owners.{create, scope, adopt, destroy_root, despawn}
use zebulon_lang.Objects.Fields.{add_prototype, promote}
use zebulon_lang.Objects.History.{revert_containers, take_container_journal}
use zebulon_lang.Objects.Writes.{set, clear_property, revert_properties, take_property_journal}
use zebulon_lang.Objects.Turns.{
  bind_static, mark_class, set_lifetime, set_lifetime_model, set_default_lifetime, set_journalling,
  release_turn_records,
}
use zebulon_lang.Objects.Ages.{Ages, Ages-refl, Ages-trans, Ages-aside}
use zebulon_lang.Objects.Ages.Owners.{
  create-IsAging, scope-IsAging, adopt-IsAging, destroy_root-IsAging, despawn-IsAging,
}
use zebulon_lang.Objects.Ages.Writes.{add_prototype-IsAging, promote-IsAging, set-IsAging}
use zebulon_lang.Objects.Ages.Turns.{
  clear_property-IsAging, revert_properties-Ages, revert_containers-Ages, bind_static-IsAging,
  mark_class-IsAging, set_lifetime-IsAging, release_turn_records-IsAging,
}

-- The calls that change a store.
pub data Call : Type 0 where
  create_call scope_call release_turn_call take_journals_call : Call
  adopt_call add_prototype_call : ObjectRef → ObjectRef → Call
  destroy_call despawn_call promote_call mark_class_call : ObjectRef → Call
  set_call : ObjectRef → ℕ → Value → Call
  clear_call : ObjectRef → ℕ → Call
  revert_call : List PropertyDelta → Call
  revert_containers_call : List ContainerDelta → Call
  bind_static_call : ℕ → ObjectRef → Call
  lifetime_call : ObjectRef → Lifetime → Call
  default_lifetime_call : Lifetime → Call
  lifetime_model_call journalling_call : Bool → Call

-- The store after a call, whatever it answered.
unfoldable pub after : Tables → Call → Store → Store
after tables create_call s = (create s).1
after tables scope_call s = (scope s).1
after tables release_turn_call s = (release_turn_records s).1
after tables take_journals_call s = (take_container_journal (take_property_journal s).1).1
after tables (adopt_call parent child) s = (adopt parent child s).1
after tables (add_prototype_call o prototype) s = (add_prototype o prototype s).1
after tables (destroy_call o) s = (destroy_root o s).1
after tables (despawn_call o) s = (despawn o s).1
after tables (promote_call o) s = (promote o s).1
after tables (mark_class_call o) s = (mark_class o s).1
after tables (set_call o p v) s = (set tables o p v s).1
after tables (clear_call o p) s = (clear_property o p s).1
after tables (revert_call ds) s = (revert_properties tables ds s).1
after tables (revert_containers_call ds) s = (revert_containers ds 0 s).1
after tables (bind_static_call slot o) s = (bind_static slot o s).1
after tables (lifetime_call o l) s = (set_lifetime o l s).1
after tables (default_lifetime_call l) s = set_default_lifetime l s
after tables (lifetime_model_call on) s = set_lifetime_model on s
after tables (journalling_call on) s = set_journalling on s

unfoldable pub run : Tables → List Call → Store → Store
run tables [] s = s
run tables (c ∷ cs) s = run tables cs (after tables c s)

after-Ages : (tables : Tables) (c : Call) (s : Store) → Ages s (after tables c s)
unfolding after take_container_journal take_property_journal
after-Ages tables create_call s = create-IsAging s
after-Ages tables scope_call s = scope-IsAging s
after-Ages tables release_turn_call s = release_turn_records-IsAging s
after-Ages tables take_journals_call s = Ages-aside refl refl refl
after-Ages tables (adopt_call parent child) s = adopt-IsAging parent child s
after-Ages tables (add_prototype_call o prototype) s = add_prototype-IsAging o prototype s
after-Ages tables (destroy_call o) s = destroy_root-IsAging o s
after-Ages tables (despawn_call o) s = despawn-IsAging o s
after-Ages tables (promote_call o) s = promote-IsAging o s
after-Ages tables (mark_class_call o) s = mark_class-IsAging o s
after-Ages tables (set_call o p v) s = set-IsAging tables o p v s
after-Ages tables (clear_call o p) s = clear_property-IsAging o p s
after-Ages tables (revert_call ds) s = revert_properties-Ages tables ds s
after-Ages tables (revert_containers_call ds) s = revert_containers-Ages ds 0 s
after-Ages tables (bind_static_call slot o) s = bind_static-IsAging slot o s
after-Ages tables (lifetime_call o l) s = set_lifetime-IsAging o l s
after-Ages tables (default_lifetime_call l) s = Ages-aside refl refl refl
after-Ages tables (lifetime_model_call on) s = Ages-aside refl refl refl
after-Ages tables (journalling_call on) s = Ages-aside refl refl refl

pub run-Ages : (tables : Tables) (cs : List Call) (s : Store) → Ages s (run tables cs s)
unfolding run
run-Ages tables [] s = Ages-refl s
run-Ages tables (c ∷ cs) s =
    Ages-trans (after-Ages tables c s) (run-Ages tables cs (after tables c s))

-- A reference of the session is good, or it has expired.
pub record_of_native :
    (s : Store) (o : ObjectRef)
    → o.session ≡ s.session
    → record_of s o ≡ current o (find s.records o.logical)
unfolding record_of
record_of_native s o native = rw (native, ==_self s.session) refl

expired-Ages :
    {s u : Store} (o : ObjectRef)
    → Ages s u
    → o.session ≡ s.session
    → o.incarnation < s.next_identity
    → record_of s o ≡ refuse expired
    → record_of u o ≡ refuse expired
expired-Ages {s} {u} o a native old gone =
    record_of_native u o (native ∙ sym a.session)
    ∙ (elim (Option-cases (find u.records o.logical)) [
      | inl empty ↦ rw empty refl
      | inr (r, here) ↦ rw here (elim (Bool-cases (r.live && r.incarnation == o.incarnation)) [
        | inr other ↦ rw other refl
        | inl same ↦
            let lives : r.live ≡ true = ground arith in
            let ages : r.incarnation ≡ o.incarnation =
              ground (arith, ==_iff r.incarnation o.incarnation) in
            elim (a.aged o.logical r here lives) [
              | inr young ↦ absurd (omega (arith, young, old, ages))
              | inl (q, there, lived, same') ↦
                  let q_ages : (q.incarnation == o.incarnation) ≡ true =
                    (==_iff q.incarnation o.incarnation).1 (same' ∙ ages) in
                  let found : record_of s o ≡ ok q =
                    record_of_native s o native ∙ rw (there, lived, q_ages) refl in
                  absurd (cc (found, gone))
            ]
      ])
    ])

-- The handle of an issued reference names it again.
native_reference-handle :
    (s : Store) (o : ObjectRef) → IsIssued s.session o → native_reference s (handle o) ≡ o
unfolding native_reference handle
native_reference-handle s o issued =
    let l : (o.logical % 2 ^ 32 + o.incarnation * 2 ^ 32 % 2 ^ 64) % 2 ^ 32 ≡ o.logical =
      omega (arith, issued.logical_fits, issued.incarnation_fits) in
    let i : (o.logical % 2 ^ 32 + o.incarnation * 2 ^ 32 % 2 ^ 64) / 2 ^ 32 ≡ o.incarnation =
      omega (arith, issued.logical_fits, issued.incarnation_fits) in
    rw (l, i, sym issued.here) refl

-- A reference that the store issued and that has expired stays expired through any sequence of
-- calls, also after its slot went to another record: it is refused as `expired`, and its handle
-- names nothing at the boundary.
pub expired-run :
    (tables : Tables) (cs : List Call) (s : Store) (o : ObjectRef)
    → IsIssued s.session o
    → o.incarnation < s.next_identity
    → record_of s o ≡ refuse expired
    → (record_of (run tables cs s) o ≡ refuse expired)
      × (reference (run tables cs s) (handle o) ≡ none)
unfolding reference
expired-run tables cs s o issued old gone =
    let u = run tables cs s in
    let a = run-Ages tables cs s in
    let still : record_of u o ≡ refuse expired = expired-Ages o a issued.here old gone in
    let issued' : IsIssued u.session o = record {
      here = issued.here ∙ sym a.session;
      logical_fits = issued.logical_fits;
      incarnation_fits = issued.incarnation_fits;
    } in
    (still, rw (native_reference-handle u o issued', still) refl)
