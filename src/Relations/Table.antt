-- ===== src/Relations/Table.antt =====
-- relations.rs, the state: cardinalities, deltas, tables, and the changes to one table's two maps.
-- A map from handles to partners is a function: an absent entry and one that was reserved and is
-- still empty answer alike everywhere in this file.
use zebulon_lang.Prelude.{
  ℕ, zero, suc, ◌-◌, Bool, true, false, Option, none, some, List, [], ◌∷◌, ◌++◌, min, length, take,
  drop, ◌==◌, if◌then◌else◌,
}
use zebulon_lang.Prelude.Exec.{Method}
unfoldable pub use zebulon_lang.Errors.{mem}
use zebulon_lang.Errors.{Error, ObjectRef, handle, ref_eq}

pub data Cardinality : Type 0 where
  one_to_one one_to_many many_to_many : Cardinality

pub from_code : ℕ → Option Cardinality
from_code zero = some one_to_one
from_code (suc zero) = some one_to_many
from_code (suc (suc zero)) = some many_to_many
from_code _ = none

abbrev pub left_is_many : Cardinality → Bool
left_is_many one_to_one = false
left_is_many one_to_many = true
left_is_many many_to_many = true

abbrev pub right_is_many : Cardinality → Bool
right_is_many many_to_many = true
right_is_many _ = false

pub record Delta : Type 0 where
  pub relation : ℕ
  pub left : ObjectRef
  pub right : ObjectRef
  pub added : Bool
  pub forward_position : ℕ
  pub reverse_position : ℕ

-- The two maps of a table.
pub record Rows : Type 0 where
  pub forward : ℕ → List ObjectRef
  pub reverse : ℕ → List ObjectRef

pub record Table : Type 0 where
  pub cardinality : Option Cardinality
  pub rows : Rows
  pub open rows use *
  pub outermost : ℕ → Option ObjectRef

abbrev pub no_rows : Rows
no_rows = record { forward = λ _. []; reverse = λ _. [] }

-- `Table::default()`
abbrev pub default_table : Table
default_table = record { cardinality = none; rows = no_rows; outermost = λ _. none }

pub record Relations : Type 0 where
  pub tables : List Table
  pub labelled : List ((ℕ × ℕ) × ℕ)
  pub journal : List Delta
  pub journalling : Bool

-- A call on `&mut self`.
abbrev pub Update : Type 0 → Type 0
Update A = Method Relations Error A

-- `HashMap` entries by key.
abbrev pub update {ℓ} : {A : Type ℓ} → (ℕ → A) → ℕ → A → ℕ → A
update f k v j = if k == j then v else f j

-- `partners.retain(|value| *value != right)`
unfoldable pub retain_ne : ObjectRef → List ObjectRef → List ObjectRef
retain_ne r [] = []
retain_ne r (x ∷ xs) = let rest = retain_ne r xs in if ref_eq x r then rest else x ∷ rest

-- `partners.iter().position(|p| *p == right)`
unfoldable pub position : ObjectRef → List ObjectRef → Option ℕ
position r [] = none
position r (x ∷ xs) =
    if ref_eq x r then some 0 else elim (position r xs) [ none ↦ none | some i ↦ some (suc i) ]

-- `rotate_right(1)`: the last comes first.
unfoldable pub rotate_right : List ObjectRef → List ObjectRef
rotate_right [] = []
rotate_right (x ∷ xs) = elim (rotate_right xs) [ [] ↦ x ∷ [] | y ∷ ys ↦ y ∷ x ∷ ys ]

-- `let at = position.min(partners.len() - 1); partners[at..].rotate_right(1)`
unfoldable pub move_last : ℕ → List ObjectRef → List ObjectRef
unfolding rotate_right
move_last position partners =
    let at = min position (length partners - 1) in
    take at partners ++ rotate_right (drop at partners)

-- Both maps lose the pair.
unfoldable pub unlink : ObjectRef → ObjectRef → Rows → Rows
unfolding retain_ne
unlink l r t = record {
  forward = update t.forward (handle l) (retain_ne r (t.forward (handle l)));
  reverse = update t.reverse (handle r) (retain_ne l (t.reverse (handle r)));
}

-- Both maps get the pair, at the end.
unfoldable pub link : ObjectRef → ObjectRef → Rows → Rows
link l r t = record {
  forward = update t.forward (handle l) (t.forward (handle l) ++ r ∷ []);
  reverse = update t.reverse (handle r) (t.reverse (handle r) ++ l ∷ []);
}

-- The last partner of each side goes back to where it was.
unfoldable pub reposition : Delta → Rows → Rows
unfolding move_last
reposition d t = record {
  forward =
      update t.forward (handle d.left) (move_last d.forward_position (t.forward (handle d.left)));
  reverse =
      update t.reverse (handle d.right) (move_last d.reverse_position (t.reverse (handle d.right)));
}
