-- ===== src/Objects/ClassTests.antt =====
-- Instances for the superclasses of objects.
use zebulon_lang.Objects.Ages.Writes.{record_of_found}
use zebulon_lang.Objects.Fields.{add_prototype}
use zebulon_lang.Objects.Acyclic.{add_prototype-IsAcyclic, IsAcyclic, Adds}
use zebulon_lang.Prelude.Maps.{find}
use zebulon_lang.Prelude.{inr, sym, ap, inl, ◌==◌, Bool-cases, refl, some, [], ◌∷◌, ◌≡◌, ℕ}
use zebulon_lang.Errors.{mem, ObjectRef}
use zebulon_lang.Objects.Owners.{new_store, fresh_record}
use zebulon_lang.Objects.Access.{record_of}
use zebulon_lang.Objects.Kinds.{through, direct, Descends}
use zebulon_lang.Objects.{Store, Record, world}
use zebulon_lang.Objects.Tests.{small, owner, owned}

-- Two classes without superclasses.
abbrev strangers : Store
strangers = record (new_store 1 (small 5)) {
  next_identity = 3;
  records = (1, fresh_record 1 world) ∷ (2, fresh_record 2 world) ∷ [];
  record_order = 1 ∷ 2 ∷ [];
  roots = owned ∷ owner ∷ [];
}

strangers_plain : (l : ℕ) (r : Record) → find strangers.records l ≡ some r → r.prototypes ≡ []
unfolding find
strangers_plain l r e = elim (Bool-cases (1 == l)) [
  | inl at ↦
      let is : fresh_record 1 world ≡ r = cc (rw at at e) in
      ap (λ (x : Record). x.prototypes) (sym is)
  | inr other ↦ elim (Bool-cases (2 == l)) [
    | inl at ↦
        let is : fresh_record 2 world ≡ r = cc (rw (other, at) at e) in
        ap (λ (x : Record). x.prototypes) (sym is)
    | inr neither ↦ absurd (cc (rw (other, neither) at e))
  ]
]

strangers_apart : (a o : ObjectRef) → ¬ Descends strangers a o
unfolding mem
strangers_apart a o (direct {r} here above) =
    let bare = strangers_plain _ r (record_of_found strangers _ r here) in
    cc (ap (λ xs. mem xs a) bare, above)
strangers_apart a o (through {p = y} {r} here above d) =
    let bare = strangers_plain _ r (record_of_found strangers _ r here) in
    cc (ap (λ xs. mem xs y) bare, above)

add_prototype-IsAcyclic_example :
    Adds strangers owner owned (fresh_record 1 world) (add_prototype owner owned strangers)
unfolding record_of find IsAcyclic
add_prototype-IsAcyclic_example =
    add_prototype-IsAcyclic strangers owner owned (fresh_record 1 world) refl refl refl refl refl
      (λ o. strangers_apart o o)
