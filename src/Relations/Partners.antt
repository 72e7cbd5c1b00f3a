-- ===== src/Relations/Partners.antt =====
-- relations.rs: what the operations on one list of partners do to its members and its order.
use zebulon_lang.Prelude.{
  ℕ, zero, suc, ◌-◌, ◌≤◌, ◌≡◌, refl, ap, true, false, not, ◌&&◌, ◌||◌, some, List, [], ◌∷◌, ◌++◌,
  min, ◌∙◌, inl, inr, Bool-cases, Option-cases, length, take, drop, arith,
}
use zebulon_lang.Errors.{ObjectRef, ref_eq, ref_eq_iff}
use zebulon_lang.Relations.Table.{mem, retain_ne, position, rotate_right, move_last}

-- No partner stands twice in the list.
abbrev pub IsNodup : List ObjectRef → Type 0
IsNodup [] = Unit
IsNodup (x ∷ xs) = (mem xs x ≡ false) × IsNodup xs

pub mem-append : (xs ys : List ObjectRef) (q : ObjectRef) → mem (xs ++ ys) q ≡ mem xs q || mem ys q
unfolding mem
mem-append [] ys q = refl
mem-append (x ∷ xs) ys q = ground (arith, mem-append xs ys q)

pub mem-snoc :
    (xs : List ObjectRef) (r q : ObjectRef) → mem (xs ++ r ∷ []) q ≡ mem xs q || ref_eq r q
unfolding mem
mem-snoc xs r q = ground (arith, mem-append xs (r ∷ []) q)

pub mem-retain_ne :
    (r : ObjectRef) (xs : List ObjectRef) (q : ObjectRef)
    → mem (retain_ne r xs) q ≡ mem xs q && not (ref_eq r q)
unfolding mem retain_ne
mem-retain_ne r [] q = refl
mem-retain_ne r (x ∷ xs) q =
    ground (arith, mem-retain_ne r xs q, ref_eq_iff x r, ref_eq_iff x q, ref_eq_iff r q)

pub retain_ne-absent :
    (r : ObjectRef) (xs : List ObjectRef) → mem xs r ≡ false → retain_ne r xs ≡ xs
unfolding mem retain_ne
retain_ne-absent r [] h = refl
retain_ne-absent r (x ∷ xs) h = ground (arith, retain_ne-absent r xs)

pub retain_ne-snoc :
    (r : ObjectRef) (xs : List ObjectRef) → mem xs r ≡ false → retain_ne r (xs ++ r ∷ []) ≡ xs
unfolding mem retain_ne
retain_ne-snoc r [] h = ground (arith, ref_eq_iff r r)
retain_ne-snoc r (x ∷ xs) h = ground (arith, retain_ne-snoc r xs)

pub length-retain_ne : (r : ObjectRef) (xs : List ObjectRef) → length (retain_ne r xs) ≤ length xs
unfolding retain_ne
length-retain_ne r [] = omega arith
length-retain_ne r (x ∷ xs) = ground (arith, length-retain_ne r xs)

pub retain_ne-IsNodup :
    (r : ObjectRef) (xs : List ObjectRef) → IsNodup xs → IsNodup (retain_ne r xs)
unfolding retain_ne
retain_ne-IsNodup r [] h = tt
retain_ne-IsNodup r (x ∷ xs) h = ground (arith, retain_ne-IsNodup r xs, mem-retain_ne r xs x)

pub snoc-IsNodup :
    (xs : List ObjectRef) (r : ObjectRef) → IsNodup xs → mem xs r ≡ false → IsNodup (xs ++ r ∷ [])
unfolding mem
snoc-IsNodup [] r h e = (refl, tt)
snoc-IsNodup (x ∷ xs) r h e =
    ground (arith, snoc-IsNodup xs r, mem-snoc xs r x, ref_eq_iff x r, ref_eq_iff r x)

pub position-mem :
    (r : ObjectRef) (xs : List ObjectRef) → mem xs r ≡ true → (p : ℕ) × (position r xs ≡ some p)
unfolding mem position
position-mem r [] h = cc
position-mem r (x ∷ xs) h = elim (Bool-cases (ref_eq x r)) [
  | inl same ↦ (0, rw same refl)
  | inr other ↦ let (i, e) = position-mem r xs (ground arith) in (suc i, rw (other, e) refl)
]

rotate_right-snoc : (xs : List ObjectRef) (r : ObjectRef) → rotate_right (xs ++ r ∷ []) ≡ r ∷ xs
unfolding rotate_right
rotate_right-snoc [] r = refl
rotate_right-snoc (x ∷ xs) r = rw (rotate_right-snoc xs r)

pub length-snoc : (xs : List ObjectRef) (r : ObjectRef) → length (xs ++ r ∷ []) ≡ suc (length xs)
length-snoc [] r = refl
length-snoc (x ∷ xs) r = ap suc (length-snoc xs r)

position-le :
    (r : ObjectRef) (xs : List ObjectRef) (p : ℕ)
    → IsNodup xs
    → position r xs ≡ some p
    → p ≤ length (retain_ne r xs)
unfolding position retain_ne
position-le r [] p n h = cc
position-le r (x ∷ xs) p n h = elim (Bool-cases (ref_eq x r)) [
  | inl same ↦ ground arith
  | inr other ↦ elim (Option-cases (position r xs)) [
    | inl never ↦ ground arith
    | inr (i, e) ↦ ground (arith, position-le r xs i n.1 e)
  ]
]

take-snoc :
    (p : ℕ) (xs : List ObjectRef) (r : ObjectRef)
    → p ≤ length xs
    → take p (xs ++ r ∷ []) ≡ take p xs
take-snoc zero xs r h = refl
take-snoc (suc p) [] r h = absurd (omega arith)
take-snoc (suc p) (x ∷ xs) r h = ap (λ l. x ∷ l) (take-snoc p xs r (omega arith))

drop-snoc :
    (p : ℕ) (xs : List ObjectRef) (r : ObjectRef)
    → p ≤ length xs
    → drop p (xs ++ r ∷ []) ≡ drop p xs ++ r ∷ []
drop-snoc zero xs r h = refl
drop-snoc (suc p) [] r h = absurd (omega arith)
drop-snoc (suc p) (x ∷ xs) r h = drop-snoc p xs r (omega arith)

-- A partner that stands last goes to place `p`.
move_last-snoc :
    (p : ℕ) (xs : List ObjectRef) (r : ObjectRef)
    → p ≤ length xs
    → move_last p (xs ++ r ∷ []) ≡ take p xs ++ r ∷ drop p xs
unfolding move_last
move_last-snoc p xs r h =
    let place : min p (length (xs ++ r ∷ []) - 1) ≡ p = omega (arith, length-snoc xs r) in
    rw (place, take-snoc p xs r h, drop-snoc p xs r h, rotate_right-snoc (drop p xs) r) refl

split-position :
    (r : ObjectRef) (xs : List ObjectRef) (p : ℕ)
    → IsNodup xs
    → position r xs ≡ some p
    → take p (retain_ne r xs) ++ r ∷ drop p (retain_ne r xs) ≡ xs
unfolding position retain_ne
split-position r [] p n h = cc
split-position r (x ∷ xs) p n h = elim (Bool-cases (ref_eq x r)) [
  | inl same ↦ ground (arith, retain_ne-absent r xs, ref_eq_iff x r)
  | inr other ↦ elim (Option-cases (position r xs)) [
    | inl never ↦ ground arith
    | inr (i, e) ↦ ground (arith, split-position r xs i n.1 e)
  ]
]

-- Where nothing stands twice, a partner that was removed goes back to its place.
pub move_last-retain_ne :
    (r : ObjectRef) (xs : List ObjectRef) (p : ℕ)
    → IsNodup xs
    → position r xs ≡ some p
    → move_last p (retain_ne r xs ++ r ∷ []) ≡ xs
move_last-retain_ne r xs p n h =
    move_last-snoc p (retain_ne r xs) r (position-le r xs p n h) ∙ split-position r xs p n h
