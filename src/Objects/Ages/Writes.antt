-- ===== src/Objects/Ages/Writes.antt =====
-- objects.rs: superclasses, promotion and the writes of properties age the store.
use zebulon_lang.Objects.Owners.{take_out}
use zebulon_lang.Objects.Destroy.{destroy, edit}
use zebulon_lang.Prelude.Maps.{find, contains_key, remove, insert}
use zebulon_lang.Prelude.Exec.{◌>>◌, pure, asks}
use zebulon_lang.Tables.{Tables}
use zebulon_lang.Objects.{world, Value, Record, Store}
use zebulon_lang.Errors.{ref_eq, resource_limit, ObjectRef}
use zebulon_lang.Prelude.{
  zero, ◌&&◌, length, if◌then◌else◌, leb, ◌==◌, Bool-cases, ◌||◌, [], Result-cases, Option-cases,
  ok, ◌++◌, List, ◌∷◌, not, Bool, ℕ, suc, ◌≡◌, refl, inl, inr, true, some,
}
use zebulon_lang.Objects.Ages.{
  Ages-refl, Ages-aside, Ages-insert, Ages-trans, IsAging, bind-IsAging, asks-IsAging, edit-IsAging,
  if-Ages, if-IsAging, destroy-IsAging, failure-IsAging,
}
use zebulon_lang.Objects.Access.{descends, record_of, ensure_active}
use zebulon_lang.Objects.History.{
  is_journal_full, is_journalled, journalled, journal_container, is_world,
}
use zebulon_lang.Objects.Fields.{
  append_prototype, add_prototype, promote_loop, promote, carried, is_quota_full, all_reached,
  reached, extend,
}
use zebulon_lang.Objects.Writes.{
  is_carried, has_delta, journal_write, check_value, promote_value, count_property,
  end_construction, put_property, replace_owned, set,
}

-- What a reference reads is what its slot holds.
pub record_of_found :
    (s : Store) (o : ObjectRef) (r : Record)
    → record_of s o ≡ ok r
    → find s.records o.logical ≡ some r
unfolding record_of
record_of_found s o r e = elim (Bool-cases (o.session == s.session)) [
  | inr foreign ↦ absurd (cc (rw (foreign, record_of) at e))
  | inl native ↦ elim (Option-cases (find s.records o.logical)) [
    | inl gone ↦ absurd (cc (rw (native, gone, record_of) at e))
    | inr (q, here) ↦ elim (Bool-cases (q.live && q.incarnation == o.incarnation)) [
      | inr old ↦ absurd (cc (rw (native, here, old, record_of) at e))
      | inl same ↦ cc (here, (rw (native, here, same, record_of) at e))
    ]
  ]
]

pub journal_container-IsAging : (o : ObjectRef) → IsAging (journal_container o)
unfolding journal_container journalled
journal_container-IsAging o s = if-Ages (not s.journalling) _ _ (Ages-refl s) (
    bind-IsAging {B = Unit {0}} (asks (λ s. record_of s o)) _ (asks-IsAging (λ s. record_of s o))
      (λ r.
        if-IsAging {A = Unit {0}} (not (is_world r.lifetime) || is_journalled s.container_journal o)
          _ _ (λ u. Ages-refl u)
          (if-IsAging {A = Unit {0}} (is_journal_full r s) _ _ (λ u. Ages-refl u)
            (λ u. Ages-aside refl refl refl)))
      s)

append_prototype-IsAging : (o prototype : ObjectRef) → IsAging (append_prototype o prototype)
unfolding append_prototype
append_prototype-IsAging o prototype =
    let longer : Record → Record = λ r. record r { prototypes = r.prototypes ++ prototype ∷ [] } in
    bind-IsAging {B = Unit {0}} (edit o longer) _ (edit-IsAging o longer (λ r. (refl, refl)))
      (λ _ s. Ages-aside refl refl refl)

cycle-IsAging :
    (o prototype : ObjectRef)
    → IsAging (if ref_eq o prototype then pure true else asks (λ s. descends s prototype o))
cycle-IsAging o prototype =
    if-IsAging {A = Bool} (ref_eq o prototype) (pure true) (asks (λ s. descends s prototype o))
      (λ u. Ages-refl u) (λ u. Ages-refl u)

pub add_prototype-IsAging : (o prototype : ObjectRef) → IsAging (add_prototype o prototype)
unfolding add_prototype
add_prototype-IsAging o prototype =
    bind-IsAging {B = Unit {0}} (journal_container o) _ (journal_container-IsAging o) (λ _.
      bind-IsAging {B = Unit {0}} (asks ensure_active) _ (asks-IsAging ensure_active) (λ _.
        bind-IsAging {B = Unit {0}} (asks (λ s. record_of s o)) _
          (asks-IsAging (λ s. record_of s o))
          (λ _.
            bind-IsAging {B = Unit {0}} (asks (λ s. record_of s prototype)) _
              (asks-IsAging (λ s. record_of s prototype))
              (λ _.
                bind-IsAging {B = Unit {0}}
                  (if ref_eq o prototype then pure true else asks (λ s. descends s prototype o)) _
                  (cycle-IsAging o prototype)
                  (λ cycle.
                    if-IsAging {A = Unit {0}} cycle _ _ (λ u. Ages-refl u)
                      (λ u.
                        if-Ages (is_quota_full u) _ _ (failure-IsAging Unit resource_limit u)
                          (append_prototype-IsAging o prototype u)))))))

promote_loop-IsAging :
    (n : ℕ) (pending : List ObjectRef) (count : ℕ) → IsAging (promote_loop n pending count)
unfolding promote_loop
promote_loop-IsAging zero pending count s = Ages-refl s
promote_loop-IsAging (suc n) [] count s = Ages-refl s
promote_loop-IsAging (suc n) (o ∷ pending) count s = elim (Result-cases (record_of s o)) [
  | inl (e, gone) ↦ rw (gone, promote_loop) (promote_loop-IsAging n pending count s)
  | inr (r, here) ↦
      rw (here, promote_loop)
        (elim (Bool-cases (is_world r.lifetime)) [
          | inl already ↦ rw (already, promote_loop) (promote_loop-IsAging n pending count s)
          | inr not_yet ↦
              let r' = record r { lifetime = world } in
              let u = record s { records = insert o.logical r' s.records } in
              rw (not_yet, promote_loop)
                (Ages-trans {u = u}
                  (Ages-insert o r r' refl refl (record_of_found s o r here) refl refl (λ x. x))
                  (promote_loop-IsAging n (extend pending (reached r)) (suc count) u))
        ])
]

pub promote-IsAging : (o : ObjectRef) → IsAging (promote o)
unfolding promote
promote-IsAging o s =
    if-Ages s.terminal _ _ (Ages-refl s)
      (promote_loop-IsAging (suc (suc (all_reached s.records))) (o ∷ []) 0 s)

pub journal_write-IsAging : (o : ObjectRef) (p : ℕ) → IsAging (journal_write o p)
unfolding journal_write
journal_write-IsAging o p s = if-Ages (not s.journalling) _ _ (Ages-refl s) (
    bind-IsAging {B = Unit {0}} (asks (λ s. record_of s o)) _ (asks-IsAging (λ s. record_of s o))
      (λ r.
        if-IsAging {A = Unit {0}} (not (is_world r.lifetime) || has_delta s.journal o p) _ _
          (λ u. Ages-refl u)
          (if-IsAging {A = Unit {0}} (leb s.limits.properties (length s.journal)) _ _
            (λ u. Ages-refl u) (λ u. Ages-aside refl refl refl)))
      s)

promote_value-IsAging : (o : ObjectRef) (v : Value) → IsAging (promote_value o v)
unfolding promote_value
promote_value-IsAging o v s = elim (Option-cases (carried v)) [
  | inl plain ↦ rw (plain, promote_value) (Ages-refl s)
  | inr (reference, e) ↦
      rw (e, promote_value)
        (bind-IsAging {B = Unit {0}} (asks (λ s. record_of s o)) _
          (asks-IsAging (λ s. record_of s o))
          (λ r.
            if-IsAging {A = Unit {0}} (is_world r.lifetime) _ _
              (bind-IsAging {B = Unit {0}} (promote reference) _ (promote-IsAging reference)
                (λ _ u. Ages-refl u))
              (λ u. Ages-refl u))
          s)
]

count_property-IsAging : (exists : Bool) → IsAging (count_property exists)
unfolding count_property
count_property-IsAging exists s = if-Ages exists _ _ (Ages-refl s) (
    if-Ages (is_quota_full s) _ _ (failure-IsAging Unit resource_limit s)
      (Ages-aside refl refl refl))

end_construction-IsAging : (o : ObjectRef) (p : ℕ) → IsAging (end_construction o p)
unfolding end_construction
end_construction-IsAging o p =
    let ended : Record → Record =
      λ r. record r { pending_constructions = remove p r.pending_constructions } in
    bind-IsAging {B = Unit {0}} (asks (λ s. record_of s o)) _ (asks-IsAging (λ s. record_of s o))
      (λ r.
        if-IsAging {A = Unit {0}} (not (contains_key r.pending_constructions p)) _ _
          (λ u. Ages-refl u)
          (bind-IsAging {B = Unit {0}} (edit o ended) _ (edit-IsAging o ended (λ r. (refl, refl)))
            (λ _ u. Ages-aside refl refl refl)))

put_property-IsAging : (o : ObjectRef) (p : ℕ) (v : Value) → IsAging (put_property o p v)
unfolding put_property
put_property-IsAging o p v =
    edit-IsAging o (λ r. record r { properties = insert p v r.properties }) (λ r. (refl, refl))

replace_owned-IsAging : (o : ObjectRef) (p : ℕ) (v : Value) → IsAging (replace_owned o p v)
unfolding replace_owned
replace_owned-IsAging o p v =
    bind-IsAging {B = Unit {0}} (asks (λ s. record_of s o)) _ (asks-IsAging (λ s. record_of s o))
      (λ r. elim (Option-cases (find r.owned_value_fields p)) [
        | inl free ↦ rw free (put_property-IsAging o p v)
        | inr (previous, e) ↦ rw e (elim (Bool-cases (is_carried v previous)) [
          | inl same ↦ rw same (λ u. Ages-refl u)
          | inr other ↦ rw other (elim (Option-cases (take_out previous r.children)) [
            | inl lost ↦ rw lost (λ u. Ages-refl u)
            | inr (children, e') ↦
                let freed : Record → Record = λ r. record r {
                  owned_value_fields = remove p r.owned_value_fields;
                  children = children;
                } in
                rw e' (
                  bind-IsAging {B = Unit {0}} (edit o freed)
                    (λ _. destroy previous >> put_property o p v)
                    (edit-IsAging o freed (λ r. (refl, refl)))
                    (λ _.
                      bind-IsAging {B = Unit {0}} (destroy previous) (λ _. put_property o p v)
                        (destroy-IsAging previous) (λ _. put_property-IsAging o p v)))
          ])
        ])
      ])

pub set-IsAging : (tables : Tables) (o : ObjectRef) (p : ℕ) (v : Value) → IsAging (set tables o p v)
unfolding set
set-IsAging tables o p v =
    bind-IsAging {B = Unit {0}} (asks ensure_active) _ (asks-IsAging ensure_active) (λ _.
      bind-IsAging {B = Unit {0}} (asks (λ s. record_of s o)) _ (asks-IsAging (λ s. record_of s o))
        (λ r. bind-IsAging {B = Unit {0}} (journal_write o p) _ (journal_write-IsAging o p) (λ _.
          bind-IsAging {B = Unit {0}} (asks (check_value tables v)) _
            (asks-IsAging (check_value tables v))
            (λ _.
              bind-IsAging {B = Unit {0}} (promote_value o v) _ (promote_value-IsAging o v) (λ _.
                bind-IsAging {B = Unit {0}} (count_property (contains_key r.properties p)) _
                  (count_property-IsAging (contains_key r.properties p))
                  (λ _.
                    bind-IsAging {B = Unit {0}} (end_construction o p) _
                      (end_construction-IsAging o p) (λ _. replace_owned-IsAging o p v)))))))
