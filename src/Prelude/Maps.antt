-- ===== src/Prelude/Maps.antt =====
-- `HashMap<K, V>` whose keys are numbers, as a list of entries: an insertion replaces the entry of a
-- present key, and the order of the list stands for the unspecified order of iteration.
use zebulon_lang.Prelude.Lists.{length}
use zebulon_lang.Prelude.Tests.{◌==◌, if◌then◌else◌, Bool-cases, ==_iff, ==_self}
use Prim.Native.Nat.{ℕ, suc, ◌<◌, ◌≤◌}
use mathlib.Core.Path.{◌≡◌, refl, ap}
use mathlib.Core.Logic.{inl, inr}
use mathlib.Core.Bool.{Bool, false, ◌||◌}
use mathlib.Core.List.{List, [], ◌∷◌}
use mathlib.Core.Option.{Option, none, some}
use native.Mathlib.Omega.{arith}

abbrev pub Map {ℓ} : Type ℓ → Type ℓ
Map V = List (ℕ × V)

module _ {ℓ} {V : Type ℓ} where
  unfoldable pub find : Map V → ℕ → Option V
  find [] k = none
  find ((j, v) ∷ m) k = if j == k then some v else find m k

  unfoldable pub insert : ℕ → V → Map V → Map V
  insert k v [] = (k, v) ∷ []
  insert k v ((j, w) ∷ m) = let rest = insert k v m in if j == k then (k, v) ∷ m else (j, w) ∷ rest

  unfoldable pub remove : ℕ → Map V → Map V
  remove k [] = []
  remove k ((j, w) ∷ m) = let rest = remove k m in if j == k then rest else (j, w) ∷ rest

  unfoldable pub contains_key : Map V → ℕ → Bool
  contains_key [] k = false
  contains_key ((j, v) ∷ m) k = j == k || contains_key m k

  pub find-insert_self : (m : Map V) (k : ℕ) (v : V) → find (insert k v m) k ≡ some v
  unfolding find insert
  find-insert_self [] k v = rw (==_self k) refl
  find-insert_self ((j, w) ∷ m) k v = elim (Bool-cases (j == k)) [
    | inl same ↦ rw (same, ==_self k) refl
    | inr other ↦ rw (other, other) (find-insert_self m k v)
  ]

  pub find-insert_ne :
      (m : Map V) (k j : ℕ) (v : V) → (k == j) ≡ false → find (insert k v m) j ≡ find m j
  unfolding find insert
  find-insert_ne [] k j v ne = rw ne refl
  find-insert_ne ((i, w) ∷ m) k j v ne = elim (Bool-cases (i == k)) [
    | inl same ↦
        let i≠j : (i == j) ≡ false = ground (arith, ==_iff i k, ==_iff k j, ==_iff i j) in
        rw (same, ne, i≠j) refl
    | inr other ↦ rw other (elim (Bool-cases (i == j)) [
      | inl here ↦ rw here refl
      | inr there ↦ rw there (find-insert_ne m k j v ne)
    ])
  ]

  pub find-remove_self : (m : Map V) (k : ℕ) → find (remove k m) k ≡ none
  unfolding find remove
  find-remove_self [] k = refl
  find-remove_self ((j, w) ∷ m) k = elim (Bool-cases (j == k)) [
    | inl same ↦ rw same (find-remove_self m k)
    | inr other ↦ rw (other, other) (find-remove_self m k)
  ]

  pub find-remove_ne : (m : Map V) (k j : ℕ) → (k == j) ≡ false → find (remove k m) j ≡ find m j
  unfolding find remove
  find-remove_ne [] k j ne = refl
  find-remove_ne ((i, w) ∷ m) k j ne = elim (Bool-cases (i == k)) [
    | inl same ↦
        let i≠j : (i == j) ≡ false = ground (arith, ==_iff i k, ==_iff k j, ==_iff i j) in
        rw (same, i≠j) (find-remove_ne m k j ne)
    | inr other ↦ rw other (elim (Bool-cases (i == j)) [
      | inl here ↦ rw here refl
      | inr there ↦ rw there (find-remove_ne m k j ne)
    ])
  ]

  pub length-insert_present :
      (m : Map V) (k : ℕ) (v : V) {w : V} → find m k ≡ some w → length (insert k v m) ≡ length m
  unfolding find insert
  length-insert_present [] k v h = cc
  length-insert_present ((j, w) ∷ m) k v h = elim (Bool-cases (j == k)) [
    | inl same ↦ rw same refl
    | inr other ↦ rw other (ap suc (length-insert_present m k v (rw other at h)))
  ]

  pub length-remove : (m : Map V) (k : ℕ) → length (remove k m) ≤ length m
  unfolding remove
  length-remove [] k = omega arith
  length-remove ((j, w) ∷ m) k = elim (Bool-cases (j == k)) [
    | inl same ↦ rw same (omega (arith, length-remove m k))
    | inr other ↦ rw other (omega (arith, length-remove m k))
  ]

  pub length-remove_present :
      (m : Map V) (k : ℕ) {w : V} → find m k ≡ some w → length (remove k m) < length m
  unfolding find remove
  length-remove_present [] k h = cc
  length-remove_present ((j, w) ∷ m) k h = elim (Bool-cases (j == k)) [
    | inl same ↦ rw same (omega (arith, length-remove m k))
    | inr other ↦ rw other (omega (arith, length-remove_present m k (rw other at h)))
  ]
