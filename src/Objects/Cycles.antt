-- ===== src/Objects/Cycles.antt =====
-- objects.rs, `prospective_cycle`: would a transfer make a record own itself?
use zebulon_lang.Prelude.{
  ℕ, zero, suc, Bool, true, false, Option, none, some, List, [], ◌∷◌, ◌++◌, map, ok, err, length,
  ◌==◌, if◌then◌else◌,
}
use zebulon_lang.Prelude.Maps.{Map}
use zebulon_lang.Prelude.Results.{◌>>=◌}
use zebulon_lang.Errors.{ObjectRef, ref_eq, mem}
use zebulon_lang.Objects.{PendingConstruction, Store, Look, out_of_fuel}
use zebulon_lang.Objects.Access.{record_of}

-- The `while` up the parents: a round for each record, one for what the last one has no parent, and
-- one that ends the loop.
unfoldable pub climbs : ℕ → Store → ObjectRef → Option ObjectRef → Look Bool
climbs zero s child at = err out_of_fuel
climbs (suc n) s child none = ok false
climbs (suc n) s child (some o) = elim (ref_eq o child) [
  | true ↦ ok true
  | false ↦ do r ← record_of s o; climbs n s child r.parent
]

abbrev pub pending_objects : Map PendingConstruction → List ObjectRef
pending_objects m = map (λ (e : ℕ × PendingConstruction). e.1.object) m

-- `for next in .. { if seen.insert(next) { pending.push(next) } }`: the stack and the set.
abbrev pub note_all :
    List ObjectRef → List ObjectRef → List ObjectRef → List ObjectRef × List ObjectRef
note_all [] pending seen = (pending, seen)
note_all (o ∷ os) pending seen = elim (mem seen o) [
  | true ↦ note_all os pending seen
  | false ↦ note_all os (o ∷ pending) (o ∷ seen)
]

-- The search downwards, also through what is under construction.
unfoldable pub reaches : ℕ → Store → ObjectRef → List ObjectRef → List ObjectRef → Look Bool
reaches zero s parent pending seen = err out_of_fuel
reaches (suc n) s parent [] seen = ok false
reaches (suc n) s parent (o ∷ pending) seen = elim (ref_eq o parent) [
  | true ↦ ok true
  | false ↦ do
    r ← record_of s o
    let next = note_all (r.children ++ pending_objects r.pending_constructions) pending seen
    reaches n s parent next.0 next.1
]

unfoldable pub prospective_cycle : Store → ObjectRef → ObjectRef → Look Bool
unfolding climbs reaches
prospective_cycle s parent child = do
  _ ← record_of s parent
  _ ← record_of s child
  cycle ← climbs (suc (suc (length s.records))) s child (some parent)
  elim cycle [
    | true ↦ ok true
    | false ↦
        if s.pending == 0
        then ok false
        else reaches (suc (length s.records)) s parent (child ∷ []) (child ∷ [])
  ]
