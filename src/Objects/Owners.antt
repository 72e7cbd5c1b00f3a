-- ===== src/Objects/Owners.antt =====
-- objects.rs, what creates, owns and removes records. `try_reserve` succeeds.
use zebulon_lang.Prelude.{
  ℕ, ◌+◌, ◌-◌, ◌^◌, Bool, true, false, Option, none, some, List, [], ◌∷◌, ◌++◌, ok, length, ltb,
  leb, if◌then◌else◌,
}
use zebulon_lang.Prelude.Maps.{find, insert}
use zebulon_lang.Prelude.Exec.{◌>>=◌, ◌>>◌, asks, modify}
use zebulon_lang.Errors.{
  ObjectRef, ref_eq, terminal, not_owned, wrong_type, ownership_cycle, resource_limit,
  identity_exhausted,
}
use zebulon_lang.Objects.{Record, Limits, Lifetime, world, Store, Change, fail}
use zebulon_lang.Objects.Access.{record_of, ensure_active}
use zebulon_lang.Objects.Cycles.{prospective_cycle}
use zebulon_lang.Objects.Destroy.{edit, destroy, clear_roots, resource_failure}

-- `Store::new`, once the process has handed out the number of the session.
abbrev pub new_store : ℕ → Limits → Store
new_store session limits = record {
  session = session;
  next_identity = 1;
  default_lifetime = world;
  free_slots = [];
  journal = [];
  container_journal = [];
  container_journal_properties = 0;
  container_journal_bytes = 0;
  journalling = false;
  next_reservation = 1;
  pending = 0;
  records = [];
  record_order = [];
  statics = [];
  class_property = none;
  roots = [];
  cleanup = [];
  properties = 0;
  inheritance_edges = 0;
  string_bytes = 0;
  limits = limits;
  lifetimes = false;
  terminal = false;
}

-- `Store::scope`; when the scope is dropped its roots are cleared again.
unfoldable pub scope : Change Unit
scope = do asks ensure_active; clear_roots

-- `partition_point(|id| *id < logical)` and `insert`.
unfoldable pub insert_id : ℕ → List ℕ → List ℕ
insert_id k [] = k ∷ []
insert_id k (x ∷ xs) = let rest = insert_id k xs in if ltb x k then x ∷ rest else k ∷ x ∷ xs

abbrev pub fresh_record : ℕ → Lifetime → Record
fresh_record incarnation lifetime = record {
  incarnation = incarnation;
  lifetime = lifetime;
  live = true;
  is_class = false;
  closure = none;
  transient = false;
  text = none;
  string_buffer = none;
  list = none;
  list_remaining = none;
  vector = none;
  lookup = none;
  vector_charge = 0;
  dictionary = none;
  collection = none;
  parent = none;
  prototypes = [];
  children = [];
  properties = [];
  owned_value_fields = [];
  pending_constructions = [];
}

-- `free_slots.pop()`, or the next identity, and the slots that are left.
abbrev pub slot_from : ℕ → List ℕ → ℕ × List ℕ
slot_from next [] = (next, [])
slot_from next (slot ∷ rest) = (slot, rest)

abbrev pub slot_for : Store → ℕ × List ℕ
slot_for s = slot_from s.next_identity s.free_slots

abbrev pub created : Store → ObjectRef
created s = record { session = s.session; logical = (slot_for s).0; incarnation = s.next_identity }

unfoldable pub admit : Store → Store
unfolding insert_id
admit s =
    let o = created s in
    record s {
      free_slots = (slot_for s).1;
      record_order = insert_id o.logical s.record_order;
      records = insert o.logical (fresh_record s.next_identity s.default_lifetime) s.records;
      roots = o ∷ s.roots;
      next_identity = s.next_identity + 1;
    }

unfoldable pub create : Change ObjectRef
unfolding admit
create s =
    if s.terminal
    then fail terminal s
    else if leb s.limits.objects (length s.records)
    then resource_failure resource_limit s
    else if ltb (2 ^ 32 - 1) (s.next_identity + 1)
    then resource_failure identity_exhausted s
    else (ok (created s), admit s)

-- `position(|r| *r == object)` and `remove`: the list without the reference, where it is there.
unfoldable pub take_out : ObjectRef → List ObjectRef → Option (List ObjectRef)
take_out o [] = none
take_out o (x ∷ xs) =
    let rest = take_out o xs in
    if ref_eq x o then some xs else elim rest [ none ↦ none | some ys ↦ some (x ∷ ys) ]

-- The two records and the roots once `child` is known to be a root outside `parent`.
unfoldable pub hand_over : ObjectRef → ObjectRef → List ObjectRef → Change Unit
unfolding edit
hand_over parent child roots = do
  modify (λ s. record s { roots = roots })
  edit child (λ r. record r { parent = some parent })
  edit parent (λ r. record r { children = r.children ++ child ∷ [] })

abbrev pub is_text : Record → Bool
is_text r = elim r.text [ none ↦ false | some _ ↦ true ]

unfoldable pub adopt : ObjectRef → ObjectRef → Change Unit
unfolding hand_over
adopt parent child = do
  asks ensure_active
  _ ← asks (λ s. record_of s child)
  r ← asks (λ s. record_of s parent)
  if is_text r then fail wrong_type else λ s. elim (take_out child s.roots) [
    | none ↦ fail not_owned s
    | some roots ↦
        (do
          cycle ← asks (λ s. prospective_cycle s parent child)
          if cycle then fail ownership_cycle else hand_over parent child roots)
          s
  ]

unfoldable pub destroy_root : ObjectRef → Change Unit
destroy_root o = do
  asks ensure_active
  _ ← asks (λ s. record_of s o)
  λ s. elim (take_out o s.roots) [
    | none ↦ fail not_owned s
    | some roots ↦ destroy o (record s { roots = roots })
  ]

-- `children.remove(index)` where the parent is there and lists the object.
unfoldable pub disown : ObjectRef → Option ObjectRef → Store → Store
disown o none s = s
disown o (some parent) s = elim (find s.records parent.logical) [
  | none ↦ s
  | some r ↦ elim (take_out o r.children) [
    | none ↦ s
    | some children ↦ record s {
      records = insert parent.logical (record r { children = children }) s.records;
    }
  ]
]

unfoldable pub despawn : ObjectRef → Change Unit
unfolding disown
despawn o = do
  asks ensure_active
  r ← asks (λ s. record_of s o)
  modify (λ s. elim (take_out o s.roots) [
    | some roots ↦ record s { roots = roots }
    | none ↦ disown o r.parent s
  ])
  destroy o
