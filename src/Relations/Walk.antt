-- ===== src/Relations/Walk.antt =====
-- relations.rs, the walks over one relation: `ancestors`, `descendants` and `outermost`.
-- A walk takes fuel, and `none` says that it ran out.
use zebulon_lang.Prelude.{
  ℕ, zero, suc, Bool, true, false, not, Option, none, some, List, [], ◌∷◌, ◌++◌, ◌||◌,
  if◌then◌else◌, get_elem?, set as set_elem, head?, ok, err,
}
use zebulon_lang.Errors.{wrong_type, Answer, ObjectRef, handle, ref_eq}
use zebulon_lang.Relations.Table.{Table, Relations, mem, update}
use zebulon_lang.Relations.Query.{table, all}

-- `last`
unfoldable pub last_or : ObjectRef → List ObjectRef → ObjectRef
last_or r [] = r
last_or r (x ∷ xs) = last_or x xs

module _ (s : Relations) (relation : ℕ) (entity : ObjectRef) (reversed : Bool) where
  -- The `while` loop over `chain` and `current`.
  unfoldable pub climb : ℕ → List ObjectRef → ObjectRef → Option (Answer (List ObjectRef))
  climb zero chain current = none
  climb (suc fuel) chain current = elim (all s relation current (not reversed)) [
    | err e ↦ some (err e)
    | ok partners ↦ elim (head? partners) [
      | none ↦ some (ok chain)
      | some next ↦ elim (mem chain next || ref_eq next entity) [
        | true ↦ some (ok chain)
        | false ↦ climb fuel (chain ++ next ∷ []) next
      ]
    ]
  ]

  unfoldable pub ancestors : ℕ → Option (Answer (List ObjectRef))
  unfolding climb
  ancestors fuel = climb fuel [] entity

  -- The `for` loop over the partners of one entity: what is found, and what is pending. The last
  -- of the pending comes first.
  unfoldable pub collect :
      List ObjectRef → List ObjectRef × List ObjectRef → List ObjectRef × List ObjectRef
  collect [] (found, pending) = (found, pending)
  collect (p ∷ rest) (found, pending) =
      collect rest (
        if mem found p || ref_eq p entity then (found, pending) else (found ++ p ∷ [], p ∷ pending))

  -- The `while` loop over `found` and `pending`.
  unfoldable pub spread : ℕ → List ObjectRef × List ObjectRef → Option (Answer (List ObjectRef))
  unfolding collect
  spread zero state = none
  spread (suc fuel) (found, []) = some (ok found)
  spread (suc fuel) (found, current ∷ pending) = elim (all s relation current reversed) [
    | err e ↦ some (err e)
    | ok partners ↦ spread fuel (collect partners (found, pending))
  ]

  unfoldable pub descendants : ℕ → Option (Answer (List ObjectRef))
  unfolding spread
  descendants fuel = spread fuel ([], entity ∷ [])

remember : ℕ → ObjectRef → ObjectRef → Relations → Relations
remember relation entity root s = elim (get_elem? s.tables relation) [
  | none ↦ s
  | some t ↦ record s {
    tables =
        set_elem s.tables relation
          (record t { outermost = update t.outermost (handle entity) (some root) });
  }
]

-- The answer for an entity with no cached end: walk, and keep what was found.
outermost_new :
    ℕ
    → ObjectRef
    → Option (Answer (List ObjectRef))
    → Relations
    → Option (Answer ObjectRef × Relations)
unfolding remember last_or
outermost_new relation entity none s = none
outermost_new relation entity (some (err e)) s = some (err e, s)
outermost_new relation entity (some (ok chain)) s =
    let root = last_or entity chain in some (ok root, remember relation entity root s)

outermost_in : ℕ → ℕ → ObjectRef → Answer Table → Relations → Option (Answer ObjectRef × Relations)
unfolding outermost_new ancestors
outermost_in fuel relation entity (err e) s = some (err e, s)
outermost_in fuel relation entity (ok t) s = elim (t.outermost (handle entity)) [
  | some cached ↦ some (ok cached, s)
  | none ↦ outermost_new relation entity (ancestors s relation entity false fuel) s
]

unfoldable pub outermost :
    ℕ → ℕ → ObjectRef → Bool → Relations → Option (Answer ObjectRef × Relations)
unfolding outermost_in
outermost fuel relation entity reversed s =
    if reversed
    then some (err wrong_type, s)
    else outermost_in fuel relation entity (table s relation) s

unfoldable pub clear_caches : ℕ → Relations → Relations
clear_caches relation s = elim (get_elem? s.tables relation) [
  | none ↦ s
  | some t ↦ record s { tables = set_elem s.tables relation (record t { outermost = λ _. none }) }
]
