-- ===== src/Objects/Destroy.antt =====
-- objects.rs, `Store::destroy` and what runs it over the roots. A search in the sorted slots finds
-- the entry that equals, as `binary_search` does on a sorted slice.
use zebulon_lang.Prelude.{
  ℕ, zero, suc, ◌+◌, ◌*◌, max, true, false, Option, none, some, List, [], ◌∷◌, map, ok, err, length,
  ◌==◌, if◌then◌else◌,
}
use zebulon_lang.Prelude.Maps.{find, insert, remove}
use zebulon_lang.Prelude.Exec.{◌>>◌, modify}
use zebulon_lang.Errors.{Error, ObjectRef}
use zebulon_lang.Objects.{
  Record, LookupTable, DictionaryEntry, Cleanup, enter, release, Store, Change, fail, panicked,
  out_of_fuel, minus,
}

-- `get_mut(..).expect(..)` and a change of the record.
unfoldable pub edit : ObjectRef → (Record → Record) → Change Unit
edit o f s = elim (find s.records o.logical) [
  | none ↦ (err panicked, s)
  | some r ↦ (ok tt, record s { records = insert o.logical (f r) s.records })
]

abbrev pub option_length : {A : Type 0} → Option (List A) → ℕ
option_length none = 0
option_length (some xs) = length xs

abbrev pub sum : List ℕ → ℕ
sum [] = 0
sum (x ∷ xs) = x + sum xs

abbrev pub words_bytes : Option (List DictionaryEntry) → ℕ
words_bytes none = 0
words_bytes (some entries) = sum (map (λ (e : DictionaryEntry). length e.word) entries)

abbrev pub lookup_properties : Option LookupTable → ℕ
lookup_properties none = 0
lookup_properties (some t) = 1 + 2 * max t.reserved_entries (length t.scalars + length t.strings)

abbrev pub lookup_bytes : Option LookupTable → ℕ
lookup_bytes none = 0
lookup_bytes (some t) = sum (map (λ (e : List ℕ × _). length e.0) t.strings)

-- What a record gives back of the quotas.
unfoldable pub held_bytes : Record → ℕ
held_bytes r =
    option_length r.text
    + option_length r.string_buffer
    + words_bytes r.dictionary
    + lookup_bytes r.lookup

unfoldable pub held_properties : Record → ℕ
held_properties r =
    length r.properties
    + r.vector_charge
    + elim r.closure [ none ↦ 0 | some env ↦ length env.values ]
    + option_length r.list
    + elim r.list_remaining [ none ↦ 0 | some n ↦ n ]
    + option_length r.dictionary
    + lookup_properties r.lookup

-- `for child in &record.children { cleanup.push(Enter(child)) }`
abbrev pub push_all : List ObjectRef → List Cleanup → List Cleanup
push_all [] stack = stack
push_all (c ∷ cs) stack = push_all cs (enter c ∷ stack)

-- `record_order.binary_search` and `remove`.
unfoldable pub remove_id : ℕ → List ℕ → Option (List ℕ)
remove_id k [] = none
remove_id k (x ∷ xs) =
    let rest = remove_id k xs in
    if x == k then some xs else elim rest [ none ↦ none | some ys ↦ some (x ∷ ys) ]

-- A record that leaves the store.
unfoldable pub released : ObjectRef → Record → List ℕ → Store → Store
released o r order s = record s {
  records = remove o.logical s.records;
  record_order = order;
  string_bytes = minus s.string_bytes (held_bytes r);
  properties = minus s.properties (held_properties r);
  pending = minus s.pending (length r.pending_constructions);
  inheritance_edges = minus s.inheritance_edges (length r.prototypes);
  free_slots = o.logical ∷ s.free_slots;
}

unfoldable pub revoked : ObjectRef → Record → Store → Store
revoked o r s = record s {
  records = insert o.logical (record r { live = false }) s.records;
  cleanup = push_all r.children (release o ∷ s.cleanup);
}

unfoldable pub cleanup_step : Cleanup → Change Unit
unfolding released revoked
cleanup_step (enter o) s = elim (find s.records o.logical) [
  | none ↦ (err panicked, s)
  | some r ↦ (ok tt, revoked o r s)
]
cleanup_step (release o) s = elim (find s.records o.logical) [
  | none ↦ (err panicked, s)
  | some r ↦ elim (remove_id o.logical s.record_order) [
    | none ↦ (err panicked, record s { records = remove o.logical s.records })
    | some order ↦ (ok tt, released o r order s)
  ]
]

unfoldable pub cleanup_loop : ℕ → Change Unit
unfolding cleanup_step
cleanup_loop zero s = (err out_of_fuel, s)
cleanup_loop (suc n) s = elim s.cleanup [
  | [] ↦ (ok tt, s)
  | step ∷ rest ↦ (cleanup_step step >> cleanup_loop n) (record s { cleanup = rest })
]

-- Every record is entered once and released once.
unfoldable pub destroy : ObjectRef → Change Unit
unfolding cleanup_loop
destroy o s = cleanup_loop (suc (2 * length s.records)) (record s { cleanup = enter o ∷ s.cleanup })

-- `while let Some(root) = roots.pop() { destroy(root) }`: `destroy` leaves the roots alone.
unfoldable pub drain : List ObjectRef → Change Unit
unfolding destroy
drain [] s = (ok tt, s)
drain (o ∷ rest) s = (destroy o >> drain rest) (record s { roots = rest })

unfoldable pub clear_roots : Change Unit
unfolding drain
clear_roots s = drain s.roots s

-- The end of the store, whatever a resource ran out.
unfoldable pub resource_failure : {A : Type 0} → Error → Change A
unfolding drain
resource_failure e = do
  clear_roots
  modify (λ s. record s {
    terminal = true;
    records = [];
    record_order = [];
    statics = [];
    cleanup = [];
    roots = [];
  })
  fail e
