-- ===== src/Objects/Fields.antt =====
-- objects.rs, superclasses and properties: what is asked about them, and the writes with their journal.
use zebulon_lang.Prelude.{
  ℕ, zero, suc, ◌+◌, Bool, true, false, Option, none, some, List, [], ◌∷◌, ◌++◌, ok, err, length,
  leb, if◌then◌else◌,
}
use zebulon_lang.Prelude.Maps.{Map, insert}
use zebulon_lang.Prelude.Exec.{◌>>=◌, ◌>>◌, pure, asks, modify}
use zebulon_lang.Errors.{ObjectRef, ref_eq, terminal, allocation, resource_limit, inheritance_cycle}
use zebulon_lang.Objects.{
  Value, nil_value, reference_value, text_value, list_value, Record, world, Store, Look, Change,
  fail, out_of_fuel, returned,
}
use zebulon_lang.Objects.Access.{
  record_of, ensure_active, class_fallback, descends, lookup, definer,
}
use zebulon_lang.Objects.Destroy.{edit, resource_failure}
use zebulon_lang.Objects.History.{is_world, journal_container}

-- A lookup whose `Allocation` or `ResourceLimit` is the end of the store.
abbrev pub guarded : {A : Type 0} → Look A → Change A
guarded (ok a) s = (ok a, s)
guarded (err (returned allocation)) s = resource_failure allocation s
guarded (err (returned resource_limit)) s = resource_failure resource_limit s
guarded (err e) s = (err e, s)

abbrev pub is_some : {A : Type 0} → Option A → Bool
is_some none = false
is_some (some a) = true

unfoldable pub get_inherited : ObjectRef → ℕ → ObjectRef → Change (Option Value)
get_inherited o p from_definer = do
  asks ensure_active
  v ← λ s. guarded (lookup s o p (some from_definer)) s
  asks (λ s. class_fallback s o p v)

unfoldable pub get_own : ObjectRef → ℕ → Change (Option Value)
get_own o p = do
  asks ensure_active
  v ← λ s. guarded (lookup s o p none) s
  asks (λ s. class_fallback s o p v)

unfoldable pub property_defined : ObjectRef → ℕ → Change Bool
unfolding get_own
property_defined o p = do v ← get_own o p; pure (is_some v)

unfoldable pub get : ObjectRef → ℕ → Change Value
unfolding get_own
get o p = do v ← get_own o p; pure (elim v [ none ↦ nil_value | some w ↦ w ])

unfoldable pub property_definer : ObjectRef → ℕ → Change (Option ObjectRef)
property_definer o p = do asks ensure_active; asks (λ s. definer s o p)

-- Identity, or a superclass of a superclass.
unfoldable pub of_kind : ObjectRef → ObjectRef → Change Bool
of_kind o ancestor = do
  asks ensure_active
  r ← asks (λ s. record_of s o)
  _ ← asks (λ s. record_of s ancestor)
  if ref_eq o ancestor
      then pure true
      else elim r.prototypes [ [] ↦ pure false | _ ∷ _ ↦ asks (λ s. descends s o ancestor) ]

abbrev pub is_quota_full : Store → Bool
is_quota_full s = leb s.limits.properties (s.properties + s.inheritance_edges)

unfoldable pub append_prototype : ObjectRef → ObjectRef → Change Unit
unfolding edit
append_prototype o prototype = do
  edit o (λ r. record r { prototypes = r.prototypes ++ prototype ∷ [] })
  modify (λ s. record s { inheritance_edges = s.inheritance_edges + 1 })

unfoldable pub add_prototype : ObjectRef → ObjectRef → Change Unit
unfolding append_prototype
add_prototype o prototype = do
  journal_container o
  asks ensure_active
  _ ← asks (λ s. record_of s o)
  _ ← asks (λ s. record_of s prototype)
  cycle ← if ref_eq o prototype then pure true else asks (λ s. descends s prototype o)
  if cycle then fail inheritance_cycle else λ s.
      if is_quota_full s then resource_failure resource_limit s else append_prototype o prototype s

unfoldable pub prototype_list : Store → ObjectRef → Look (List ObjectRef)
prototype_list s o = elim (ensure_active s) [
  | err e ↦ err e
  | ok _ ↦ elim (record_of s o) [ err e ↦ err e | ok r ↦ ok r.prototypes ]
]

-- The reference that a value carries.
abbrev pub carried : Value → Option ObjectRef
carried (reference_value r) = some r
carried (text_value r) = some r
carried (list_value r) = some r
carried _ = none

abbrev pub carried_all : List Value → List ObjectRef
carried_all [] = []
carried_all (v ∷ vs) = elim (carried v) [ none ↦ carried_all vs | some r ↦ r ∷ carried_all vs ]

abbrev pub values : Map Value → List Value
values [] = []
values ((k, v) ∷ m) = v ∷ values m

abbrev pub listed : Option (List Value) → List Value
listed none = []
listed (some vs) = vs

-- What `promote` finds in a record: fields, elements, and what it owns.
abbrev pub reached : Record → List ObjectRef
reached r =
    carried_all (values r.properties)
    ++ carried_all (listed r.list)
    ++ carried_all (listed r.vector)
    ++ r.children

abbrev pub all_reached : Map Record → ℕ
all_reached [] = 0
all_reached ((k, r) ∷ m) = length (reached r) + all_reached m

-- `pending.extend(reached)`: the last one is met first.
abbrev pub extend : List ObjectRef → List ObjectRef → List ObjectRef
extend pending [] = pending
extend pending (r ∷ rs) = extend (r ∷ pending) rs

unfoldable pub promote_loop : ℕ → List ObjectRef → ℕ → Change ℕ
promote_loop zero pending promoted s = (err out_of_fuel, s)
promote_loop (suc n) [] promoted s = (ok promoted, s)
promote_loop (suc n) (o ∷ pending) promoted s = elim (record_of s o) [
  | err _ ↦ promote_loop n pending promoted s
  | ok r ↦ elim (is_world r.lifetime) [
    | true ↦ promote_loop n pending promoted s
    | false ↦
        promote_loop n (extend pending (reached r)) (suc promoted)
          (record s { records = insert o.logical (record r { lifetime = world }) s.records })
  ]
]

-- A round for the value, one for all that records reach, and one that ends the loop.
unfoldable pub promote : ObjectRef → Change ℕ
unfolding promote_loop
promote o s =
    if s.terminal
    then fail terminal s
    else promote_loop (suc (suc (all_reached s.records))) (o ∷ []) 0 s
