-- ===== src/Sort/Tests.antt =====
-- sort.rs: one resumption on a vector of three numbers.
use zebulon_lang.Prelude.{
  ℕ, zero, suc, ◌≡◌, refl, ap, true, false, Option, none, some, List, [], ◌∷◌, arith, length,
  get_elem?, set, ok, ◌∙◌,
}
use zebulon_lang.Prelude.Exec.{Method}
use zebulon_lang.Sort.{QuickSort, resume, awaiting, new_sort}
use zebulon_lang.Sort.Bounds.{IsSort, IsPair, is_some, resume-IsSort}

abbrev or_zero : Option ℕ → ℕ
or_zero none = 0
or_zero (some n) = n

data Never : Type 0 where

-- `Vec::swap`
swap : ℕ → ℕ → Method {0, 0, 0} (List ℕ) Never Unit
swap a b s = (ok tt, set (set s a (or_zero (get_elem? s b))) b (or_zero (get_elem? s a)))

length-set : (s : List ℕ) (a n : ℕ) → length (set s a n) ≡ length s
length-set [] a n = refl
length-set (x ∷ s) zero n = refl
length-set (x ∷ s) (suc a) n = ap suc (length-set s a n)

abbrev three : QuickSort
three = record { descending = false; ranges = (0, 2) ∷ []; partition = none }

three-IsSort : IsSort 3 three
three-IsSort = record {
  short = omega arith;
  pending = (omega arith, omega arith, tt);
  current = tt;
}

resume-IsSort_example :
    (pair : Option (ℕ × ℕ)) × (q' : QuickSort) × (s' : List ℕ) × (resume swap three none
        (30 ∷ 10 ∷ 20 ∷ [])
        12
      ≡ some (ok pair, q', s'))
    × IsSort 3 q'
    × (length s' ≡ 3)
    × IsPair 3 pair
    × (awaiting q' ≡ is_some pair)
unfolding swap
resume-IsSort_example =
    resume-IsSort swap 3 (λ s. length s ≡ 3)
      (λ a b s ha hb h. (
        set (set s a (or_zero (get_elem? s b))) b (or_zero (get_elem? s a)),
        refl,
        length-set (set s a (or_zero (get_elem? s b))) b (or_zero (get_elem? s a))
            ∙ length-set s a (or_zero (get_elem? s b))
            ∙ h,
      ))
      three none (30 ∷ 10 ∷ 20 ∷ []) three-IsSort refl

three_new : new_sort (λ n. true) 3 false ≡ some three
unfolding new_sort
three_new = refl

-- Without room for the ranges there is no sort, also for an empty vector.
no_room_test : new_sort (λ n. false) 0 false ≡ none
unfolding new_sort
no_room_test = refl
