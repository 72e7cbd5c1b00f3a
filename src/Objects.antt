-- ===== src/Objects.antt =====
-- crates/zeb-runtime/src/objects.rs and objects/history.rs, the state: records, what a record can
-- carry, and the store. A `PropertyId` is its number, a `String` its bytes, an `i32` an integer; a
-- stack (`cleanup`) has its top first. A release build is modelled: quota counters wrap at 64 bits.
pub mod Access
pub mod Acyclic
pub mod Adopted
pub mod Ages
pub mod Climb
pub mod Cycles
pub mod Fields
pub mod Forest
pub mod Graft
pub mod Grown
pub mod History
pub mod Definer
pub mod Destroy
pub mod Kinds
pub mod Owners
pub mod Ownership
pub mod Purge
pub mod Stale
pub mod Terminal
mod ClassTests
mod Tests
pub mod Turns
pub mod Uproot
pub mod Writes
use zebulon_lang.Prelude.{ℕ, ◌+◌, ◌-◌, ◌%◌, ◌^◌, Bool, Option, List, Result, err}
use zebulon_lang.Prelude.Int.{ℤ}
use zebulon_lang.Prelude.Maps.{Map}
use zebulon_lang.Prelude.Exec.{Method, raise}
use zebulon_lang.Errors.{Error, ObjectRef}

pub data Lifetime : Type 0 where
  world turn : Lifetime

pub record LiteralRef : Type 0 where
  pub session : ℕ
  pub index : ℕ

pub data Value : Type 0 where
  nil_value initializing : Value
  bool_value : Bool → Value
  int_value : ℤ → Value
  reference_value text_value list_value : ObjectRef → Value
  string_value : LiteralRef → Value
  method_value property_value enumerator_value function_value : ℕ → Value

pub record PropertyDelta : Type 0 where
  pub object : ObjectRef
  pub property : ℕ
  pub previous : Option Value

pub record PendingConstruction : Type 0 where
  pub object : ObjectRef
  pub revision : ℕ

pub record ClosureEnvironment : Type 0 where
  pub function : ℕ
  pub values : List Value

pub record DictionaryEntry : Type 0 where
  pub word : List ℕ
  pub object : ObjectRef
  pub property : ℕ

pub record OwnedMember : Type 0 where
  pub slot : ObjectRef
  pub object : ObjectRef

pub data LookupKey : Type 0 where
  nil_key : LookupKey
  bool_key : Bool → LookupKey
  int_key : ℤ → LookupKey
  object_key : ObjectRef → LookupKey
  property_key enumerator_key function_key : ℕ → LookupKey

pub record LookupTable : Type 0 where
  pub buckets : ℤ
  pub reserved_entries : ℕ
  pub scalars : List (LookupKey × Value)
  pub strings : List (List ℕ × Value)
  pub default : Value

pub record Limits : Type 0 where
  pub objects : ℕ
  pub properties : ℕ
  pub string_bytes : ℕ

pub record Record : Type 0 where
  pub incarnation : ℕ
  pub lifetime : Lifetime
  pub live : Bool
  pub is_class : Bool
  pub closure : Option ClosureEnvironment
  pub transient : Bool
  pub text : Option (List ℕ)
  pub string_buffer : Option (List ℕ)
  pub list : Option (List Value)
  pub list_remaining : Option ℕ
  pub vector : Option (List Value)
  pub lookup : Option LookupTable
  pub vector_charge : ℕ
  pub dictionary : Option (List DictionaryEntry)
  pub collection : Option (List OwnedMember)
  pub parent : Option ObjectRef
  pub prototypes : List ObjectRef
  pub children : List ObjectRef
  pub properties : Map Value
  pub owned_value_fields : Map ObjectRef
  pub pending_constructions : Map PendingConstruction

pub data Cleanup : Type 0 where
  enter release : ObjectRef → Cleanup

-- What a mutable container held before the first write of a turn.
pub record ContainerDelta : Type 0 where
  pub object : ObjectRef
  pub vector : Option (List Value)
  pub vector_charge : ℕ
  pub lookup : Option LookupTable
  pub dictionary : Option (List DictionaryEntry)
  pub string_buffer : Option (List ℕ)
  pub prototypes : List ObjectRef
  pub transient : Bool

-- `roots` and `free_slots` have the last first, where `push` and `pop` work.
pub record Store : Type 0 where
  pub session : ℕ
  pub next_identity : ℕ
  pub default_lifetime : Lifetime
  pub free_slots : List ℕ
  pub journal : List PropertyDelta
  pub container_journal : List ContainerDelta
  pub container_journal_properties : ℕ
  pub container_journal_bytes : ℕ
  pub journalling : Bool
  pub next_reservation : ℕ
  pub pending : ℕ
  pub records : Map Record
  pub record_order : List ℕ
  pub statics : Map ObjectRef
  pub class_property : Option ℕ
  pub roots : List ObjectRef
  pub cleanup : List Cleanup
  pub properties : ℕ
  pub inheritance_edges : ℕ
  pub string_bytes : ℕ
  pub limits : Limits
  pub lifetimes : Bool
  pub terminal : Bool

-- How a call can fail: an error of its own, an `expect` that does not hold, or a loop of the model
-- that runs out of the fuel it was given.
pub data Fault : Type 0 where
  returned : Error → Fault
  panicked out_of_fuel : Fault

-- A call that only reads, and one on `&mut self`.
abbrev pub Look : Type 0 → Type 0
Look A = Result Fault A

abbrev pub Change : Type 0 → Type 0
Change A = Method Store Fault A

abbrev pub refuse : {A : Type 0} → Error → Look A
refuse e = err (returned e)

abbrev pub fail : {A : Type 0} → Error → Change A
fail e = raise (returned e)

-- `-=` on a counter.
unfoldable pub minus : ℕ → ℕ → ℕ
minus a b = (a + (2 ^ 64 - b % 2 ^ 64)) % 2 ^ 64
