-- ===== src/Objects/History.antt =====
-- crates/zeb-runtime/src/objects/history.rs: what mutable containers held before the first write.
use zebulon_lang.Prelude.{
  ◌^◌, ◌%◌, ℕ, suc, ◌+◌, ◌-◌, ◌*◌, max, Bool, true, false, not, ◌||◌, Option, none, some, List, [],
  ◌∷◌, ok, err, length, ltb, leb, if◌then◌else◌,
}
use zebulon_lang.Prelude.Maps.{insert}
use zebulon_lang.Prelude.Exec.{◌>>=◌, asks, pure}
use zebulon_lang.Errors.{ObjectRef, ref_eq, resource_limit}
use zebulon_lang.Objects.{
  Lifetime, world, turn, LookupTable, Record, ContainerDelta, Store, Change, fail, minus,
}
use zebulon_lang.Objects.Access.{record_of}
use zebulon_lang.Objects.Destroy.{option_length, words_bytes, lookup_bytes}

abbrev pub is_world : Lifetime → Bool
is_world world = true
is_world turn = false

-- `ContainerDelta::capture`
abbrev pub capture : ObjectRef → Record → ContainerDelta
capture o r = record {
  object = o;
  vector = r.vector;
  vector_charge = r.vector_charge;
  lookup = r.lookup;
  dictionary = r.dictionary;
  string_buffer = r.string_buffer;
  prototypes = r.prototypes;
  transient = r.transient;
}

abbrev pub table_charge : Option LookupTable → ℕ
table_charge none = 0
table_charge (some t) = max t.reserved_entries (length t.scalars + length t.strings) * 2

-- `charges`
unfoldable pub charged_properties : Record → ℕ
charged_properties r = r.vector_charge + table_charge r.lookup + option_length r.dictionary

unfoldable pub charged_bytes : Record → ℕ
charged_bytes r = option_length r.string_buffer + lookup_bytes r.lookup + words_bytes r.dictionary

abbrev pub is_journalled : List ContainerDelta → ObjectRef → Bool
is_journalled [] o = false
is_journalled (d ∷ ds) o = ref_eq d.object o || is_journalled ds o

-- Whether one more delta leaves the journal within the limits of the store.
abbrev pub is_journal_full : Record → Store → Bool
is_journal_full r s =
    leb s.limits.objects (length s.container_journal)
    || ltb (s.limits.properties - s.container_journal_properties)
        (charged_properties r + length r.prototypes)
    || ltb (s.limits.string_bytes - s.container_journal_bytes) (charged_bytes r)

unfoldable pub journalled : ObjectRef → Record → Store → Store
unfolding charged_properties charged_bytes
journalled o r s = record s {
  container_journal = capture o r ∷ s.container_journal;
  container_journal_properties =
      s.container_journal_properties + (charged_properties r + length r.prototypes);
  container_journal_bytes = s.container_journal_bytes + charged_bytes r;
}

-- The journal has its last delta first.
unfoldable pub journal_container : ObjectRef → Change Unit
unfolding journalled
journal_container o s =
    if not s.journalling
    then (ok tt, s)
    else (do
      r ← asks (λ s. record_of s o)
      if not (is_world r.lifetime) || is_journalled s.container_journal o
          then pure tt
          else if is_journal_full r s
          then fail resource_limit
          else λ s. (ok tt, journalled o r s))
        s

unfoldable pub take_container_journal : Store → List ContainerDelta × Store
take_container_journal s = (
  s.container_journal,
  record s {
    container_journal = [];
    container_journal_properties = 0;
    container_journal_bytes = 0;
  },
)

abbrev pub put_back : ContainerDelta → Record → Record
put_back d r = record r {
  vector = d.vector;
  vector_charge = d.vector_charge;
  lookup = d.lookup;
  dictionary = d.dictionary;
  string_buffer = d.string_buffer;
  prototypes = d.prototypes;
  transient = d.transient;
}

unfoldable pub revert_container : ContainerDelta → Record → Store → Store
unfolding charged_properties charged_bytes
revert_container d r s = record s {
  records = insert d.object.logical (put_back d r) s.records;
  inheritance_edges =
      (minus s.inheritance_edges (length r.prototypes) + length d.prototypes) % 2 ^ 64;
  properties =
      (minus s.properties (charged_properties r) + charged_properties (put_back d r)) % 2 ^ 64;
  string_bytes = (minus s.string_bytes (charged_bytes r) + charged_bytes (put_back d r)) % 2 ^ 64;
}

-- The newest delta comes first; a delta for what is gone is skipped. Answers how many were put back.
unfoldable pub revert_containers : List ContainerDelta → ℕ → Store → ℕ × Store
unfolding revert_container
revert_containers [] count s = (count, s)
revert_containers (d ∷ ds) count s = elim (record_of s d.object) [
  | err _ ↦ revert_containers ds count s
  | ok r ↦ revert_containers ds (suc count) (revert_container d r s)
]
