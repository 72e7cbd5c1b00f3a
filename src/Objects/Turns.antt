-- ===== src/Objects/Turns.antt =====
-- objects.rs, statics, classes, lifetimes, the end of a turn, and the enumeration of objects.
use zebulon_lang.Prelude.{
  ℕ, zero, suc, ◌+◌, ◌-◌, Bool, true, false, not, ◌&&◌, Option, none, some, List, [], ◌∷◌, ok, err,
  length, leb, if◌then◌else◌,
}
use zebulon_lang.Prelude.Maps.{Map, find, insert, contains_key}
use zebulon_lang.Prelude.Exec.{◌>>=◌, ◌>>◌, pure, asks, modify}
use zebulon_lang.Errors.{ObjectRef, ref_eq, not_owned, resource_limit}
use zebulon_lang.Objects.{Lifetime, Record, Store, Look, Change, fail, panicked}
use zebulon_lang.Objects.Access.{record_of, ensure_active, reference_to}
use zebulon_lang.Objects.Destroy.{edit, destroy, resource_failure}
use zebulon_lang.Objects.History.{is_world}
use zebulon_lang.Objects.Owners.{take_out}
use zebulon_lang.Objects.Fields.{promote, of_kind}

unfoldable pub bind_static : ℕ → ObjectRef → Change Unit
bind_static slot o = do
  asks ensure_active
  _ ← asks (λ s. record_of s o)
  λ s.
      if contains_key s.statics slot
      then fail not_owned s
      else if leb s.limits.objects (length s.statics)
      then resource_failure resource_limit s
      else (ok tt, record s { statics = insert slot o s.statics })

unfoldable pub register_class_property : ℕ → Change Unit
register_class_property p = do
  asks ensure_active
  modify (λ s. record s { class_property = some p })

unfoldable pub mark_class : ObjectRef → Change Unit
unfolding edit
mark_class o = do
  asks ensure_active
  _ ← asks (λ s. record_of s o)
  edit o (λ r. record r { is_class = true })

unfoldable pub set_lifetime : ObjectRef → Lifetime → Change Unit
unfolding edit
set_lifetime o l = do _ ← asks (λ s. record_of s o); edit o (λ r. record r { lifetime = l })

abbrev pub set_lifetime_model : Bool → Store → Store
set_lifetime_model on s = record s { lifetimes = on }

abbrev pub set_default_lifetime : Lifetime → Store → Store
set_default_lifetime l s = record s { default_lifetime = l }

abbrev pub set_journalling : Bool → Store → Store
set_journalling on s = record s { journalling = on }

-- Whether the parent of a turn record is of the world.
abbrev pub is_held : Map Record → ObjectRef → Bool
is_held records parent = elim (find records parent.logical) [
  | none ↦ false
  | some r ↦ is_world r.lifetime
]

abbrev pub reference_of : Store → ℕ → Record → ObjectRef
reference_of s logical r = record {
  session = s.session;
  logical = logical;
  incarnation = r.incarnation;
}

-- The turn records that world state owns, and those that nothing owns.
unfoldable pub turn_records : Store → Map Record → List ObjectRef × List ObjectRef
turn_records s [] = ([], [])
turn_records s ((logical, r) ∷ rest) =
    let (held, free) = turn_records s rest in
    if is_world r.lifetime then (held, free) else elim r.parent [
      | none ↦ (held, reference_of s logical r ∷ free)
      | some parent ↦
          if is_held s.records parent then (reference_of s logical r ∷ held, free) else (held, free)
    ]

unfoldable pub promote_each : List ObjectRef → Change Unit
promote_each [] = pure tt
promote_each (o ∷ os) = promote o >> promote_each os

abbrev pub without_root : ObjectRef → List ObjectRef → List ObjectRef
without_root o roots = elim (take_out o roots) [ none ↦ roots | some rest ↦ rest ]

unfoldable pub release_each : List ObjectRef → ℕ → Change ℕ
release_each [] count s = (ok count, s)
release_each (o ∷ os) count s = elim (contains_key s.records o.logical) [
  | false ↦ release_each os count s
  | true ↦
      (do
        modify (λ s. record s { roots = without_root o s.roots })
        destroy o
        λ u. release_each os (count + (length s.records - length u.records)) u)
        s
]

unfoldable pub release_turn_records : Change ℕ
unfolding turn_records promote_each release_each
release_turn_records = do
  asks ensure_active
  λ s. (let (held, free) = turn_records s s.records in do promote_each held; release_each free 0) s

pub data Derived : Type 0 where
  instances classes both : Derived

abbrev pub admits : Derived → Bool → Bool
admits instances is_class = not is_class
admits classes is_class = is_class
admits both is_class = true

unfoldable pub from_flags : ℕ → Option Derived
from_flags (suc zero) = some instances
from_flags (suc (suc zero)) = some classes
from_flags (suc (suc (suc zero))) = some both
from_flags _ = none

-- `partition_point(|id| *id <= cursor)`, and the slots from there on.
unfoldable pub after_cursor : ℕ → List ℕ → List ℕ
after_cursor cursor [] = []
after_cursor cursor (x ∷ xs) =
    let rest = after_cursor cursor xs in if leb x cursor then rest else x ∷ xs

unfoldable pub next_from : List ℕ → ObjectRef → Derived → Change (Option ObjectRef)
next_from [] ancestor want s = (ok none, s)
next_from (slot ∷ slots) ancestor want s = elim (find s.records slot) [
  | none ↦ (err panicked, s)
  | some r ↦ elim (r.live && admits want r.is_class) [
    | false ↦ next_from slots ancestor want s
    | true ↦ elim (reference_to s slot) [
      | none ↦ next_from slots ancestor want s
      | some candidate ↦
          (do
            found ← if ref_eq candidate ancestor then pure false else of_kind candidate ancestor
            if found then pure (some candidate) else next_from slots ancestor want)
            s
    ]
  ]
]

unfoldable pub cursor_of : Option ObjectRef → Store → Look ℕ
cursor_of none s = ok 0
cursor_of (some o) s = elim (record_of s o) [ err e ↦ err e | ok _ ↦ ok o.logical ]

unfoldable pub next_derived : Option ObjectRef → ObjectRef → Derived → Change (Option ObjectRef)
unfolding after_cursor next_from cursor_of
next_derived after ancestor want = do
  asks ensure_active
  _ ← asks (λ s. record_of s ancestor)
  cursor ← asks (cursor_of after)
  λ s. next_from (after_cursor cursor s.record_order) ancestor want s
