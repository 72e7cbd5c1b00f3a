-- ===== src/Sort.antt =====
-- crates/zeb-runtime/src/sort.rs: the quicksort of `Vector.sort`, which suspends at each comparison.
-- An `i64` is a word in two's complement; a range is below `2 ^ 63`, but `i` may be -1. The stack of
-- ranges has its top first.
pub mod Bounds
mod Tests
use zebulon_lang.Prelude.{
  ℕ, zero, suc, ◌+◌, ◌-◌, ◌%◌, ◌^◌, Bool, true, false, Option, none, some, List, [], ◌∷◌, ltb, leb,
  ◌==◌, if◌then◌else◌, Result, ok, err,
}
use zebulon_lang.Prelude.Exec.{Method}
use zebulon_lang.Prelude.Int.{ℤ, pos, negsuc, pos_part, neg_part, sub_ℕ}

pub data Phase : Type 0 where
  advance_i compare_i advance_j compare_j exchange_pair : Phase

pub record Partition : Type 0 where
  pub l : ℕ
  pub r : ℕ
  pub i : ℕ
  pub j : ℕ
  pub pivot : ℕ
  pub phase : Phase

pub record QuickSort : Type 0 where
  pub descending : Bool
  pub ranges : List (ℕ × ℕ)
  pub partition : Option Partition

-- `x + 1`, `x - 1` and `x < y` of `i64`.
abbrev pub inc : ℕ → ℕ
inc x = (x + 1) % 2 ^ 64

abbrev pub dec : ℕ → ℕ
dec x = (x + (2 ^ 64 - 1)) % 2 ^ 64

abbrev pub lt_signed : ℕ → ℕ → Bool
lt_signed x y = ltb ((x + 2 ^ 63) % 2 ^ 64) ((y + 2 ^ 63) % 2 ^ 64)

-- `QuickSort::new`. `reserve` is whether the allocator gives room for so many ranges, which
-- `try_reserve_exact` asks for; `i64::try_from` fails from `2 ^ 63` on.
unfoldable pub new_sort : (ℕ → Bool) → ℕ → Bool → Option QuickSort
new_sort reserve zero descending =
    if reserve 1
    then some (record { descending = descending; ranges = []; partition = none })
    else none
new_sort reserve (suc n) descending =
    if reserve (suc n)
    then (if ltb n (2 ^ 63)
        then some (record { descending = descending; ranges = (0, n) ∷ []; partition = none })
        else none)
    else none

abbrev pub is_compare : Phase → Bool
is_compare compare_i = true
is_compare compare_j = true
is_compare _ = false

abbrev pub awaiting_at : Option Partition → Bool
awaiting_at none = false
awaiting_at (some p) = is_compare p.phase

abbrev pub awaiting : QuickSort → Bool
awaiting q = awaiting_at q.partition

-- The comparator's number, as the direction asks.
abbrev pub oriented : Bool → Option ℤ → Option ℤ
oriented descending none = none
oriented true (some n) = some (sub_ℕ (neg_part n) (pos_part n))
oriented false (some n) = some n

abbrev pub is_negative : Option ℤ → Bool
is_negative (some (negsuc _)) = true
is_negative _ = false

abbrev pub is_positive : Option ℤ → Bool
is_positive (some (pos (suc _))) = true
is_positive _ = false

-- What one round of the loop comes to: another round, an answer, or the error of an exchange.
pub data Round (S E : Type 0) : Type 0 where
  again : QuickSort → Option ℤ → S → Round S E
  answer : QuickSort → S → Option (ℕ × ℕ) → Round S E
  failed : QuickSort → S → E → Round S E

abbrev pub with_partition : Partition → QuickSort → QuickSort
with_partition p q = record q { partition = some p }

abbrev pub new_pivot : Partition → ℕ
new_pivot p = if p.pivot == p.i then p.j else if p.pivot == p.j then p.i else p.pivot

-- The two parts that are left to sort, the left one on top.
abbrev pub left_to_sort : Partition → List (ℕ × ℕ) → List (ℕ × ℕ)
left_to_sort p ranges =
    let right = (if lt_signed p.i p.r then (inc p.i, p.r) ∷ ranges else ranges) in
    if lt_signed p.l p.i then (p.l, dec p.i) ∷ right else right

module _ {S E : Type 0} (exchange : ℕ → ℕ → Method {0, 0, 0} S E Unit) where
  unfoldable pub start_range : List (ℕ × ℕ) → QuickSort → Option ℤ → S → Round S E
  start_range [] q order s = answer q s none
  start_range ((l, r) ∷ ranges) q order s =
      if lt_signed l r
      then again
          (record q {
            ranges = ranges;
            partition =
                some (record { l = l; r = r; i = dec l; j = r; pivot = r; phase = advance_i });
          })
          order s
      else again (record q { ranges = ranges }) order s

  -- After the crossing: the pair goes back, and the pivot comes to its place.
  unfoldable pub place_again :
      Result {0, 0} E Unit × S → Partition → QuickSort → Option ℤ → Round S E
  place_again (err e, s) p q order = failed q s e
  place_again (ok _, s) p q order =
      again (record q { ranges = left_to_sort p q.ranges; partition = none }) order s

  unfoldable pub place : Result {0, 0} E Unit × S → Partition → QuickSort → Option ℤ → Round S E
  unfolding place_again
  place (err e, s) p q order = failed q s e
  place (ok _, s) p q order = place_again (exchange p.i p.r s) p q order

  unfoldable pub exchanged : Result {0, 0} E Unit × S → Partition → QuickSort → Option ℤ → Round S E
  unfolding place
  exchanged (err e, s) p q order = failed q s e
  exchanged (ok _, s) p q order =
      if lt_signed p.i p.j
      then again (with_partition (record p { pivot = new_pivot p; phase = advance_i }) q) order s
      else place (exchange p.i p.j s) p q order

  unfoldable pub phase_round : Phase → Partition → QuickSort → Option ℤ → S → Round S E
  unfolding exchanged
  phase_round advance_i p q order s =
      let i = inc p.i in
      if i == p.r
      then again (with_partition (record p { i = i; phase = advance_j }) q) order s
      else answer (with_partition (record p { i = i; phase = compare_i }) q) s (some (i, p.pivot))
  phase_round compare_i p q order s =
      again
        (with_partition (record p { phase = if is_negative order then advance_i else advance_j }) q)
        none s
  phase_round advance_j p q order s =
      let j = dec p.j in
      if j == p.l
      then again (with_partition (record p { j = j; phase = exchange_pair }) q) order s
      else answer (with_partition (record p { j = j; phase = compare_j }) q) s (some (j, p.pivot))
  phase_round compare_j p q order s =
      again
        (with_partition
          (record p { phase = if is_positive order then advance_j else exchange_pair }) q)
        none s
  phase_round exchange_pair p q order s = exchanged (exchange p.i p.j s) p q order

  unfoldable pub round : Option Partition → QuickSort → Option ℤ → S → Round S E
  unfolding start_range phase_round
  round none q order s = start_range q.ranges q order s
  round (some p) q order s = phase_round p.phase p q order s

  -- The loop, on fuel: `none` says that it ran out.
  unfoldable pub loop :
      ℕ → QuickSort → Option ℤ → S → Option (Result E (Option (ℕ × ℕ)) × QuickSort × S)
  unfolding round
  loop zero q order s = none
  loop (suc fuel) q order s = elim (round q.partition q order s) [
    | again q' order' s' ↦ loop fuel q' order' s'
    | answer q' s' pair ↦ some (ok pair, q', s')
    | failed q' s' e ↦ some (err e, q', s')
  ]

  -- Each round counts against the ranges that are pending and the phase.
  unfoldable pub resume :
      QuickSort → Option ℤ → S → ℕ → Option (Result E (Option (ℕ × ℕ)) × QuickSort × S)
  unfolding loop
  resume q result s fuel = loop fuel q (oriented q.descending result) s
