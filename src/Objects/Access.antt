-- ===== src/Objects/Access.antt =====
-- objects.rs, what reads the store: references, statics, and the walks over the superclasses. Each
-- loop runs on fuel: one round for each record that it can visit, and one that ends it.
use zebulon_lang.Prelude.{
  ℕ, zero, suc, ◌+◌, ◌-◌, ◌/◌, ◌%◌, ◌^◌, Bool, true, false, ◌&&◌, Option, none, some, List, [], ◌∷◌,
  ok, err, length, get_elem?, ltb, ◌==◌, if◌then◌else◌,
}
use zebulon_lang.Prelude.Maps.{Map, find, contains_key}
use zebulon_lang.Prelude.Results.{◌>>=◌}
use zebulon_lang.Errors.{
  ObjectRef, ref_eq, mem, foreign_session, expired, initialization_cycle, terminal,
}
use zebulon_lang.Tables.{Tables}
use zebulon_lang.Objects.{
  Value, LiteralRef, Record, Store, Look, refuse, out_of_fuel, initializing, bool_value,
}

abbrev pub current : ObjectRef → Option Record → Look Record
current o none = refuse expired
current o (some r) = if r.live && r.incarnation == o.incarnation then ok r else refuse expired

-- `Store::record`
unfoldable pub record_of : Store → ObjectRef → Look Record
record_of s o =
    if o.session == s.session then current o (find s.records o.logical) else refuse foreign_session

-- `ensure_active`, and `ready` of `Objects`.
abbrev pub ensure_active : Store → Look Unit
ensure_active s = if s.terminal then refuse terminal else ok tt

abbrev pub is_ok : {A : Type 0} → Look A → Bool
is_ok (ok a) = true
is_ok (err e) = false

abbrev pub is_valid : Store → ObjectRef → Bool
is_valid s o = is_ok (record_of s o)

abbrev pub live_objects : Store → ℕ
live_objects s = length s.records

abbrev pub literal : Tables → Store → ℕ → Look LiteralRef
literal tables s i = do
  _ ← ensure_active s
  elim (get_elem? tables.literals i) [
    | none ↦ refuse expired
    | some _ ↦ ok (record { session = s.session; index = i })
  ]

abbrev pub reference_to : Store → ℕ → Option ObjectRef
reference_to s logical = elim (find s.records logical) [
  | none ↦ none
  | some r ↦
      if r.live
      then some (record { session = s.session; logical = logical; incarnation = r.incarnation })
      else none
]

unfoldable pub native_reference : Store → ℕ → ObjectRef
native_reference s word = record {
  session = s.session;
  logical = word % 2 ^ 32;
  incarnation = word / 2 ^ 32;
}

-- `Objects::reference`
unfoldable pub reference : Store → ℕ → Option ObjectRef
reference s word = let o = native_reference s word in if is_valid s o then some o else none

unfoldable pub static_object : Store → ℕ → Look ObjectRef
static_object s slot = do
  _ ← ensure_active s
  elim (find s.statics slot) [ none ↦ refuse expired | some o ↦ do _ ← record_of s o; ok o ]

abbrev pub is_number : Option ℕ → ℕ → Bool
is_number none n = false
is_number (some m) n = m == n

-- `isClass` answers for every object, whether it was set or not.
unfoldable pub class_fallback : Store → ObjectRef → ℕ → Option Value → Look (Option Value)
class_fallback s o p (some initializing) = refuse initialization_cycle
class_fallback s o p (some v) = ok (some v)
class_fallback s o p none =
    if is_number s.class_property p
    then (do r ← record_of s o; ok (some (bool_value r.is_class)))
    else ok none

-- The `for` of `descends` over the superclasses of one object: `none` once `ancestor` is among them.
unfoldable pub visit :
    Store
    → ObjectRef
    → List ObjectRef
    → List ObjectRef
    → List ObjectRef
    → Look (Option (List ObjectRef × List ObjectRef))
visit s ancestor [] pending seen = ok (some (pending, seen))
visit s ancestor (p ∷ ps) pending seen = do
  _ ← record_of s p
  if ref_eq p ancestor
      then ok none
      else visit s ancestor ps (if mem seen p then pending else p ∷ pending)
          (if mem seen p then seen else p ∷ seen)

unfoldable pub descends_loop : ℕ → Store → ObjectRef → List ObjectRef → List ObjectRef → Look Bool
unfolding visit
descends_loop zero s ancestor pending seen = err out_of_fuel
descends_loop (suc n) s ancestor [] seen = ok false
descends_loop (suc n) s ancestor (o ∷ pending) seen = do
  r ← record_of s o
  next ← visit s ancestor r.prototypes pending seen
  elim next [ none ↦ ok true | some (pending', seen') ↦ descends_loop n s ancestor pending' seen' ]

unfoldable pub descends : Store → ObjectRef → ObjectRef → Look Bool
descends s origin ancestor =
    descends_loop (suc (length s.records)) s ancestor (origin ∷ []) (origin ∷ [])

-- What the walk along single superclasses comes to: the value, no value, or a class with several.
pub data Chain (A : Type 0) : Type 0 where
  found : A → Chain A
  undefined : Chain A
  branched : ObjectRef → Chain A

unfoldable pub lookup_chain : ℕ → Store → ℕ → ObjectRef → Look (Chain Value)
lookup_chain zero s p o = err out_of_fuel
lookup_chain (suc n) s p o = do
  r ← record_of s o
  elim (find r.properties p) [
    | some v ↦ ok (found v)
    | none ↦ elim r.prototypes [
      | [] ↦ ok undefined
      | parent ∷ more ↦ elim more [ [] ↦ lookup_chain n s p parent | _ ∷ _ ↦ ok (branched o) ]
    ]
  ]

unfoldable pub definer_chain : ℕ → Store → ℕ → ObjectRef → Look (Chain ObjectRef)
definer_chain zero s p o = err out_of_fuel
definer_chain (suc n) s p o = do
  r ← record_of s o
  if contains_key r.properties p then ok (found o) else elim r.prototypes [
    | [] ↦ ok undefined
    | parent ∷ more ↦ elim more [ [] ↦ definer_chain n s p parent | _ ∷ _ ↦ ok (branched o) ]
  ]

-- The superclasses from the rightmost on: `prototypes[prototypes.len() - 1 - next]`.
abbrev pub rightmost : List ObjectRef → ℕ → Option ObjectRef
rightmost prototypes next =
    if ltb next (length prototypes)
    then get_elem? prototypes (length prototypes - 1 - next)
    else none

-- The walk of `lookup` and `definer` in reverse postorder. `order` has its last first, which is the
-- order that `.into_iter().rev()` reads.
unfoldable pub order_loop :
    ℕ → Store → List (ObjectRef × ℕ) → List ObjectRef → List ObjectRef → Look (List ObjectRef)
order_loop zero s frames order seen = err out_of_fuel
order_loop (suc n) s [] order seen = ok order
order_loop (suc n) s ((o, next) ∷ frames) order seen = do
  r ← record_of s o
  elim (rightmost r.prototypes next) [
    | none ↦ order_loop n s frames (o ∷ order) seen
    | some parent ↦ do
      _ ← record_of s parent
      let frames' = (o, next + 1) ∷ frames
      elim (mem seen parent) [
        | true ↦ order_loop n s frames' order seen
        | false ↦ order_loop n s ((parent, 0) ∷ frames') order (parent ∷ seen)
      ]
  ]

unfoldable pub edges : Map Record → ℕ
edges [] = 0
edges ((k, r) ∷ m) = length r.prototypes + edges m

-- Each visited class is met once for each of its superclasses, and once more to be finished.
unfoldable pub expanded : Store → ObjectRef → Look (List ObjectRef)
unfolding order_loop edges
expanded s o = order_loop (suc (length s.records + edges s.records)) s ((o, 0) ∷ []) [] (o ∷ [])

-- The `for` of `lookup`: with `after`, the classes up to it are passed over.
unfoldable pub first_value : Store → ℕ → Option ObjectRef → List ObjectRef → Look (Option Value)
first_value s p after [] = ok none
first_value s p (some definer) (o ∷ rest) =
    first_value s p (if ref_eq o definer then none else some definer) rest
first_value s p none (o ∷ rest) = do
  r ← record_of s o
  elim (find r.properties p) [ some v ↦ ok (some v) | none ↦ first_value s p none rest ]

unfoldable pub first_definer : Store → ℕ → List ObjectRef → Look (Option ObjectRef)
first_definer s p [] = ok none
first_definer s p (o ∷ rest) = do
  r ← record_of s o
  if contains_key r.properties p then ok (some o) else first_definer s p rest

unfoldable pub lookup : Store → ObjectRef → ℕ → Option ObjectRef → Look (Option Value)
unfolding lookup_chain expanded first_value
lookup s o p (some definer) = do
  _ ← record_of s definer
  order ← expanded s o
  first_value s p (some definer) order
lookup s o p none = do
  chain ← lookup_chain (suc (length s.records)) s p o
  elim chain [
    | found v ↦ ok (some v)
    | undefined ↦ ok none
    | branched at ↦ do order ← expanded s at; first_value s p none order
  ]

unfoldable pub definer : Store → ObjectRef → ℕ → Look (Option ObjectRef)
unfolding definer_chain expanded first_definer
definer s o p = do
  chain ← definer_chain (suc (length s.records)) s p o
  elim chain [
    | found at ↦ ok (some at)
    | undefined ↦ ok none
    | branched at ↦ do order ← expanded s at; first_definer s p order
  ]
