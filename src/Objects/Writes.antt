-- ===== src/Objects/Writes.antt =====
-- objects.rs, the writes of properties, their journal and its revert.
use zebulon_lang.Prelude.{
  ℕ, suc, ◌+◌, ◌-◌, Bool, true, false, not, ◌&&◌, ◌||◌, none, some, List, [], ◌∷◌, ok, err, length,
  leb, ◌==◌, if◌then◌else◌,
}
use zebulon_lang.Prelude.Maps.{find, insert, remove, contains_key}
use zebulon_lang.Prelude.Exec.{◌>>=◌, ◌>>◌, pure, raise, asks, modify}
use zebulon_lang.Errors.{ObjectRef, ref_eq, resource_limit, foreign_session}
use zebulon_lang.Tables.{Tables}
use zebulon_lang.Objects.{
  Value, string_value, Record, PropertyDelta, Store, Look, Change, fail, refuse, minus, panicked,
}
use zebulon_lang.Objects.Access.{record_of, ensure_active, literal, is_valid}
use zebulon_lang.Objects.Destroy.{edit, destroy, resource_failure}
use zebulon_lang.Objects.History.{is_world}
use zebulon_lang.Objects.Owners.{take_out}
use zebulon_lang.Objects.Fields.{carried, is_quota_full, promote}

abbrev pub has_delta : List PropertyDelta → ObjectRef → ℕ → Bool
has_delta [] o p = false
has_delta (d ∷ ds) o p = ref_eq d.object o && d.property == p || has_delta ds o p

abbrev pub delta_of : ObjectRef → ℕ → Record → PropertyDelta
delta_of o p r = record { object = o; property = p; previous = find r.properties p }

-- What `set` and `clear_property` note before the first write of a turn to a world property. The
-- journal has its last delta first.
unfoldable pub journal_write : ObjectRef → ℕ → Change Unit
journal_write o p s =
    if not s.journalling
    then (ok tt, s)
    else (do
      r ← asks (λ s. record_of s o)
      if not (is_world r.lifetime) || has_delta s.journal o p
          then pure tt
          else if leb s.limits.properties (length s.journal)
          then fail resource_limit
          else modify (λ s. record s { journal = delta_of o p r ∷ s.journal }))
        s

-- A value of this session, whose literal is there.
unfoldable pub check_value : Tables → Value → Store → Look Unit
check_value tables (string_value l) s =
    if l.session == s.session
    then elim (literal tables s l.index) [ err e ↦ err e | ok _ ↦ ok tt ]
    else refuse foreign_session
check_value tables v s = elim (carried v) [
  | none ↦ ok tt
  | some r ↦ if r.session == s.session then ok tt else refuse foreign_session
]

-- What world state refers to becomes world state.
unfoldable pub promote_value : ObjectRef → Value → Change Unit
promote_value o v = elim (carried v) [
  | none ↦ pure tt
  | some reference ↦ do
    r ← asks (λ s. record_of s o)
    if is_world r.lifetime then promote reference >> pure tt else pure tt
]

-- One more property, where the quota has room.
unfoldable pub count_property : Bool → Change Unit
count_property exists s =
    if exists
    then (ok tt, s)
    else if is_quota_full s
    then resource_failure resource_limit s
    else (ok tt, record s { properties = s.properties + 1 })

-- A write ends the construction that was to fill the property.
unfoldable pub end_construction : ObjectRef → ℕ → Change Unit
unfolding edit
end_construction o p = do
  r ← asks (λ s. record_of s o)
  if not (contains_key r.pending_constructions p) then pure tt else do
    edit o (λ r. record r { pending_constructions = remove p r.pending_constructions })
    modify (λ s. record s { pending = minus s.pending 1 })

unfoldable pub put_property : ObjectRef → ℕ → Value → Change Unit
unfolding edit
put_property o p v = edit o (λ r. record r { properties = insert p v r.properties })

abbrev pub is_carried : Value → ObjectRef → Bool
is_carried v o = elim (carried v) [ none ↦ false | some r ↦ ref_eq r o ]

-- The value that the property owned goes, unless it is the one that is written.
unfoldable pub replace_owned : ObjectRef → ℕ → Value → Change Unit
unfolding edit put_property
replace_owned o p v = do
  r ← asks (λ s. record_of s o)
  elim (find r.owned_value_fields p) [
    | none ↦ put_property o p v
    | some previous ↦
        if is_carried v previous then pure tt else elim (take_out previous r.children) [
          | none ↦ raise panicked
          | some children ↦ do
            edit o (λ r. record r {
              owned_value_fields = remove p r.owned_value_fields;
              children = children;
            })
            destroy previous
            put_property o p v
        ]
  ]

unfoldable pub set : Tables → ObjectRef → ℕ → Value → Change Unit
unfolding journal_write check_value promote_value count_property end_construction replace_owned
set tables o p v = do
  asks ensure_active
  r ← asks (λ s. record_of s o)
  journal_write o p
  asks (λ s. check_value tables v s)
  promote_value o v
  count_property (contains_key r.properties p)
  end_construction o p
  replace_owned o p v

-- The value that a cleared property owned goes with it.
unfoldable pub drop_owned : ObjectRef → ℕ → Change Unit
unfolding edit
drop_owned o p = do
  r ← asks (λ s. record_of s o)
  elim (find r.owned_value_fields p) [
    | none ↦ pure tt
    | some previous ↦ do
      edit o (λ r. record r {
        owned_value_fields = remove p r.owned_value_fields;
        children = elim (take_out previous r.children) [ none ↦ r.children | some cs ↦ cs ];
      })
      destroy previous
  ]

unfoldable pub clear_property : ObjectRef → ℕ → Change Unit
unfolding journal_write drop_owned edit
clear_property o p = do
  asks ensure_active
  r ← asks (λ s. record_of s o)
  if not (contains_key r.properties p) then pure tt else do
    journal_write o p
    drop_owned o p
    edit o (λ r. record r { properties = remove p r.properties })
    modify (λ s. record s { properties = s.properties - 1 })

unfoldable pub restore_property : Tables → PropertyDelta → Change Unit
unfolding set clear_property
restore_property tables d = elim d.previous [
  | none ↦ clear_property d.object d.property
  | some v ↦ set tables d.object d.property v
]

unfoldable pub revert_all : Tables → List PropertyDelta → ℕ → Store → ℕ × Store
unfolding restore_property
revert_all tables [] count s = (count, s)
revert_all tables (d ∷ ds) count s = elim (is_valid s d.object) [
  | false ↦ revert_all tables ds count s
  | true ↦
      let (result, s') = restore_property tables d s in
      revert_all tables ds (elim result [ err _ ↦ count | ok _ ↦ suc count ]) s'
]

-- The newest delta comes first; how many were put back.
unfoldable pub revert_properties : Tables → List PropertyDelta → Store → ℕ × Store
unfolding revert_all
revert_properties tables deltas s =
    let (count, u) = revert_all tables deltas 0 (record s { journalling = false }) in
    (count, record u { journalling = s.journalling })

unfoldable pub take_property_journal : Store → List PropertyDelta × Store
take_property_journal s = (s.journal, record s { journal = [] })
