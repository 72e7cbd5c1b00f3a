-- ===== src/Sort/Bounds.antt =====
-- sort.rs: every index stays inside the vector, and every resumption comes to an end.
use zebulon_lang.Prelude.{
  ℕ, zero, suc, ◌+◌, ◌*◌, ◌^◌, ◌≤◌, ◌<◌, ◌≡◌, refl, Bool, true, false, Option, none, some, List, [],
  ◌∷◌, arith, ◌==◌, if◌then◌else◌, Result, ok, err, length, Bool-cases, subst, inl, inr,
}
use zebulon_lang.Prelude.Exec.{Method}
use zebulon_lang.Prelude.Int.{ℤ}
use zebulon_lang.Sort.{
  Phase, advance_i, compare_i, advance_j, compare_j, exchange_pair, Partition, QuickSort, inc, dec,
  lt_signed, awaiting, is_negative, is_positive, oriented, Round, again, answer, failed,
  with_partition, new_pivot, left_to_sort, start_range, place, place_again, exchanged, phase_round,
  round, loop, resume,
}

-- Where `i` and `j` are in each phase.
abbrev pub Placed : Phase → Partition → Type 0
Placed advance_i p = (p.l ≤ inc p.i) × (inc p.i ≤ p.r) × (p.l < p.j) × (p.j ≤ p.r)
Placed compare_i p = (p.l ≤ p.i) × (p.i < p.r) × (p.l < p.j) × (p.j ≤ p.r)
Placed advance_j p = (p.l ≤ p.i) × (p.i ≤ p.r) × (p.l < p.j) × (p.j ≤ p.r)
Placed compare_j p = (p.l ≤ p.i) × (p.i ≤ p.r) × (p.l < p.j) × (p.j < p.r)
Placed exchange_pair p = (p.l ≤ p.i) × (p.i ≤ p.r) × (p.l ≤ p.j) × (p.j < p.r)

pub record IsPartition (len : ℕ) (p : Partition) : Type 0 where
  pub ordered : p.l < p.r
  pub inside : p.r < len
  pub pivot_above : p.l ≤ p.pivot
  pub pivot_below : p.pivot ≤ p.r
  pub placed : Placed p.phase p

abbrev pub AreRanges : ℕ → List (ℕ × ℕ) → Type 0
AreRanges len [] = Unit
AreRanges len ((l, r) ∷ ranges) = (l ≤ r) × (r < len) × AreRanges len ranges

abbrev pub MaybePartition : ℕ → Option Partition → Type 0
MaybePartition len none = Unit
MaybePartition len (some p) = IsPartition len p

-- Every index of a sort is one of a vector of `len` elements.
pub record IsSort (len : ℕ) (q : QuickSort) : Type 0 where
  pub short : len ≤ 2 ^ 63
  pub pending : AreRanges len q.ranges
  pub current : MaybePartition len q.partition

abbrev pub IsPair : ℕ → Option (ℕ × ℕ) → Type 0
IsPair len none = Unit
IsPair len (some (a, b)) = (a < len) × (b < len)

abbrev pub is_some {ℓ} : {A : Type ℓ} → Option A → Bool
is_some none = false
is_some (some _) = true

-- How many rounds there can be before the next answer.
weight_at : Phase → Partition → ℕ
weight_at advance_i p = if inc p.i == p.r then 8 else 1
weight_at compare_i p = 9
weight_at advance_j p = 7
weight_at compare_j p = 8
weight_at exchange_pair p = 6

weight : Option Partition → ℕ
unfolding weight_at
weight none = 0
weight (some p) = weight_at p.phase p

measure : QuickSort → ℕ
unfolding weight
measure q = 2 * length q.ranges + weight q.partition

new_pivot-within :
    (p : Partition)
    → p.l ≤ p.i
    → p.i ≤ p.r
    → p.l ≤ p.j
    → p.j ≤ p.r
    → p.l ≤ p.pivot
    → p.pivot ≤ p.r
    → (p.l ≤ new_pivot p) × (new_pivot p ≤ p.r)
new_pivot-within p a b c d e f = ground arith

left_to_sort-AreRanges :
    (len : ℕ) (p : Partition) (ranges : List (ℕ × ℕ))
    → len ≤ 2 ^ 63
    → p.l ≤ p.i
    → p.i ≤ p.r
    → p.r < len
    → AreRanges len ranges
    → AreRanges len (left_to_sort p ranges)
left_to_sort-AreRanges len p ranges short a b c v = ground arith

length-left_to_sort :
    (p : Partition) (ranges : List (ℕ × ℕ)) → length (left_to_sort p ranges) ≤ length ranges + 2
length-left_to_sort p ranges = ground arith

weight_light : (here : Option Partition) → weight here ≤ 9
unfolding weight weight_at
weight_light none = omega arith
weight_light (some p) = ground arith

module _ {S E : Type 0} (exchange : ℕ → ℕ → Method {0, 0, 0} S E Unit) (len : ℕ)
    (Holds : S → Type 0)
    (exchange_works : (a b : ℕ) (s : S)
      → a < len
      → b < len
      → Holds s
      → (u : S) × (exchange a b s ≡ (ok tt, u)) × Holds u) where
  -- What a round may come to, for a state of this measure.
  Fine : ℕ → Round S E → Type 0
  unfolding measure
  Fine m (again q order s) = IsSort len q × Holds s × (measure q < m)
  Fine m (answer q s pair) = IsSort len q × Holds s × IsPair len pair × (awaiting q ≡ is_some pair)
  Fine m (failed q s e) = 1 ≤ 0

  start_range-Fine :
      (ranges : List (ℕ × ℕ)) (q : QuickSort) (order : Option ℤ) (s : S)
      → AreRanges len ranges
      → q.partition ≡ none
      → IsSort len q
      → Holds s
      → Fine (2 * length ranges) (start_range exchange ranges q order s)
  unfolding start_range Fine measure weight weight_at
  start_range-Fine [] q order s v idle w h = (w, h, tt, rw idle refl)
  start_range-Fine ((l, r) ∷ ranges) q order s (lr, fits, v) idle w h =
      let short = w.short in
      elim (Bool-cases (lt_signed l r)) [
        | inl smaller ↦
            let apart : l < r = ground arith in
            rw smaller (
              record {
                short = w.short;
                pending = v;
                current = record {
                  ordered = apart;
                  inside = fits;
                  pivot_above = omega arith;
                  pivot_below = omega arith;
                  placed = (omega arith, omega arith, omega arith, omega arith);
                };
              },
              h,
              ground arith,
            )
        | inr single ↦ rw single (
          record { short = w.short; pending = v; current = rw idle tt },
          h,
          rw idle (omega arith),
        )
      ]

  -- The partition of a sort, in another place.
  module _ (q : QuickSort) (w : IsSort len q) (p : Partition) (v : IsPartition len p) where
    place-Fine :
        (order : Option ℤ) (s : S)
        → p.l ≤ p.i
        → p.i ≤ p.r
        → p.l ≤ p.j
        → p.j ≤ p.r
        → Holds s
        → Fine (2 * length q.ranges + 6) (place exchange (exchange p.i p.j s) p q order)
    unfolding place place_again Fine measure weight
    place-Fine order s a b c d h =
        let (u, ran, hu) =
          exchange_works p.i p.j s (omega (arith, v.inside)) (omega (arith, v.inside)) h in
        let (u', ran', hu') = exchange_works p.i p.r u (omega (arith, v.inside)) v.inside hu in
        rw (ran, ran')
          (
            record {
              short = w.short;
              pending = left_to_sort-AreRanges len p q.ranges w.short a b v.inside w.pending;
              current = tt;
            },
            hu',
            omega (arith, length-left_to_sort p q.ranges),
          )

    exchanged-Fine :
        (order : Option ℤ) (s : S)
        → Placed exchange_pair p
        → Holds s
        → Fine (2 * length q.ranges + 6) (exchanged exchange (exchange p.i p.j s) p q order)
    unfolding exchanged Fine measure weight weight_at
    exchanged-Fine order s (a, b, c, d) h =
        let (u, ran, hu) =
          exchange_works p.i p.j s (omega (arith, v.inside)) (omega (arith, v.inside)) h in
        let short = w.short in
        let inside = v.inside in
        let ordered = v.ordered in
        elim (Bool-cases (lt_signed p.i p.j)) [
          | inl before ↦
              let apart : p.i < p.j = ground arith in
              let (above, below) =
                new_pivot-within p a b c (omega arith) v.pivot_above v.pivot_below in
              rw (ran, before)
                (
                  record {
                    short = w.short;
                    pending = w.pending;
                    current = record {
                      ordered = v.ordered;
                      inside = v.inside;
                      pivot_above = above;
                      pivot_below = below;
                      placed = (omega arith, omega arith, omega arith, omega arith);
                    };
                  },
                  hu,
                  ground arith,
                )
          | inr crossed ↦ rw (ran, crossed) (place-Fine order u a b c (omega arith) hu)
        ]

    -- The partition with another place and phase.
    moved :
        (i j : ℕ) (phase : Phase)
        → Placed phase (record p { i = i; j = j; phase = phase })
        → IsSort len (with_partition (record p { i = i; j = j; phase = phase }) q)
    moved i j phase placed = record {
      short = w.short;
      pending = w.pending;
      current = record {
        ordered = v.ordered;
        inside = v.inside;
        pivot_above = v.pivot_above;
        pivot_below = v.pivot_below;
        placed = placed;
      };
    }

    phase_round-Fine :
        (phase : Phase) (order : Option ℤ) (s : S)
        → Placed phase p
        → Holds s
        → Fine (2 * length q.ranges + weight_at phase p) (phase_round exchange phase p q order s)
    unfolding phase_round Fine measure weight weight_at
    phase_round-Fine advance_i order s (a, b, c, d) h =
        let inside = v.inside in
        let below = v.pivot_below in
        elim (Bool-cases (inc p.i == p.r)) [
          | inl end ↦ rw end (
            moved (inc p.i) p.j advance_j (omega arith, omega arith, omega arith, omega arith),
            h,
            omega arith,
          )
          | inr more ↦
              let apart : inc p.i < p.r = ground arith in
              rw more (
                moved (inc p.i) p.j compare_i (omega arith, omega arith, omega arith, omega arith),
                h,
                (omega arith, omega arith),
                refl,
              )
        ]
    phase_round-Fine compare_i order s (a, b, c, d) h =
        let short = w.short in
        let inside = v.inside in
        elim (Bool-cases (is_negative order)) [
          | inl less ↦ rw less (
            moved p.i p.j advance_i (omega arith, omega arith, omega arith, omega arith),
            h,
            ground arith,
          )
          | inr not_less ↦ rw not_less (
            moved p.i p.j advance_j (omega arith, omega arith, omega arith, omega arith),
            h,
            omega arith,
          )
        ]
    phase_round-Fine advance_j order s (a, b, c, d) h =
        let short = w.short in
        let inside = v.inside in
        let below = v.pivot_below in
        elim (Bool-cases (dec p.j == p.l)) [
          | inl end ↦ rw end (
            moved p.i (dec p.j) exchange_pair (omega arith, omega arith, omega arith, omega arith),
            h,
            omega arith,
          )
          | inr more ↦
              let apart : p.l < dec p.j = ground arith in
              rw more (
                moved p.i (dec p.j) compare_j (omega arith, omega arith, omega arith, omega arith),
                h,
                (omega arith, omega arith),
                refl,
              )
        ]
    phase_round-Fine compare_j order s (a, b, c, d) h = elim (Bool-cases (is_positive order)) [
      | inl greater ↦ rw greater (
        moved p.i p.j advance_j (omega arith, omega arith, omega arith, omega arith),
        h,
        omega arith,
      )
      | inr not_greater ↦ rw not_greater (
        moved p.i p.j exchange_pair (omega arith, omega arith, omega arith, omega arith),
        h,
        omega arith,
      )
    ]
    phase_round-Fine exchange_pair order s placed h = exchanged-Fine order s placed h

  round-Fine :
      (here : Option Partition) (q : QuickSort) (order : Option ℤ) (s : S)
      → q.partition ≡ here
      → IsSort len q
      → Holds s
      → Fine (2 * length q.ranges + weight here) (round exchange here q order s)
  unfolding round weight
  round-Fine none q order s e w h =
      let fine = start_range-Fine q.ranges q order s w.pending e w h in
      subst (λ m. Fine m (start_range exchange q.ranges q order s)) (omega arith) fine
  round-Fine (some p) q order s e w h =
      let v : IsPartition len p = subst (λ x. MaybePartition len x) e w.current in
      phase_round-Fine q w p v p.phase order s v.placed h

  -- What a resumption comes to.
  Answers : Option (Result E (Option (ℕ × ℕ)) × QuickSort × S) → Type 0
  Answers out =
      (pair : Option (ℕ × ℕ)) × (q : QuickSort) × (s : S) × (out ≡ some (ok pair, q, s))
      × IsSort len q
      × Holds s
      × IsPair len pair
      × (awaiting q ≡ is_some pair)

  after_round :
      (fuel m : ℕ) (r : Round S E)
      → Fine m r
      → m ≤ fuel
      → ((q : QuickSort) (order : Option ℤ) (s : S)
          → IsSort len q
          → Holds s
          → measure q < fuel
          → Answers (loop exchange fuel q order s))
      → Answers (elim r [
        | again q' order' s' ↦ loop exchange fuel q' order' s'
        | answer q' s' pair ↦ some (ok pair, q', s')
        | failed q' s' e ↦ some (err e, q', s')
      ])
  unfolding Fine Answers
  after_round fuel m (again q order s) (w, h, less) enough go = go q order s w h (omega arith)
  after_round fuel m (answer q s pair) (w, h, inside, asked) enough go =
      (pair, q, s, refl, w, h, inside, asked)
  after_round fuel m (failed q s e) f enough go = absurd (omega arith)

  loop-Answers :
      (fuel : ℕ) (q : QuickSort) (order : Option ℤ) (s : S)
      → IsSort len q
      → Holds s
      → measure q < fuel
      → Answers (loop exchange fuel q order s)
  unfolding loop measure
  loop-Answers zero q order s w h enough = absurd (omega arith)
  loop-Answers (suc fuel) q order s w h enough =
      after_round fuel (2 * length q.ranges + weight q.partition)
        (round exchange q.partition q order s) (round-Fine q.partition q order s refl w h)
        (omega arith)
        (λ q' order' s' w' h' less. loop-Answers fuel q' order' s' w' h' (omega arith))

  -- For a vector whose exchanges inside its bounds succeed and keep some property: on ten rounds
  -- beyond two for each pending range, a resumption of a well-formed sort, whatever the comparator
  -- answered, ends without an error. It leaves a well-formed sort and the property, the pair that it
  -- asks for is inside the vector, and a comparison is awaited exactly when there is a pair.
  pub resume-IsSort :
      (q : QuickSort) (result : Option ℤ) (s : S)
      → IsSort len q
      → Holds s
      → (pair : Option (ℕ × ℕ)) × (q' : QuickSort) × (s' : S) × (resume exchange q result s
            (2 * length q.ranges + 10)
          ≡ some (ok pair, q', s'))
        × IsSort len q'
        × Holds s'
        × IsPair len pair
        × (awaiting q' ≡ is_some pair)
  unfolding resume Answers measure weight weight_at
  resume-IsSort q result s w h =
      loop-Answers (2 * length q.ranges + 10) q (oriented q.descending result) s w h
        (omega (arith, weight_light q.partition))
