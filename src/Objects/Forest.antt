-- ===== src/Objects/Forest.antt =====
-- objects.rs, ownership as it is meant: a forest of references, which the parents, the children and
-- the roots of a store spell out, and the index of its slots.
use zebulon_lang.Prelude.{
  lt→ltb, ltb→lt, ==_self, ℕ, suc, ◌+◌, ◌<◌, ◌≡◌, refl, ◌∙◌, inl, inr, Bool, true, false, not, ◌&&◌,
  ◌||◌, Option, none, some, List, [], ◌∷◌, arith, ◌==◌, ltb, Bool-cases, ==_iff,
}
use zebulon_lang.Prelude.Maps.{Map, find}
use zebulon_lang.Errors.{ObjectRef}
use zebulon_lang.Objects.{Record, Store}
use zebulon_lang.Objects.Destroy.{remove_id}
use zebulon_lang.Objects.Owners.{insert_id}

-- A tree's root, what it owns, and the trees beside it.
pub data Forest : Type 0 where
  empty : Forest
  plant : ObjectRef → Forest → Forest → Forest

abbrev pub roots : Forest → List ObjectRef
roots empty = []
roots (plant o kids beside) = o ∷ roots beside

abbrev pub size : Forest → ℕ
size empty = 0
size (plant o kids beside) = suc (size kids + size beside)

-- Whether a slot is of the forest.
unfoldable pub has : Forest → ℕ → Bool
has empty l = false
has (plant o kids beside) l = o.logical == l || has kids l || has beside l

-- No slot occurs twice.
unfoldable pub IsApart : Forest → Type 0
IsApart empty = Unit
IsApart (plant o kids beside) =
    (has kids o.logical ≡ false)
    × (has beside o.logical ≡ false)
    × ((l : ℕ) → has kids l ≡ true → has beside l ≡ false)
    × IsApart kids
    × IsApart beside

-- The record of one node: alive, of the reference's age, under `parent`, owning `children`.
pub record IsNode (m : Map Record) (parent : Option ObjectRef) (o : ObjectRef)
    (children : List ObjectRef) : Type 0 where
  pub held : Record
  pub here : find m o.logical ≡ some held
  pub ages : held.incarnation ≡ o.incarnation
  pub lives : held.live ≡ true
  pub below : held.parent ≡ parent
  pub owns : held.children ≡ children

-- The records spell out the forest.
unfoldable pub Holds : Map Record → Option ObjectRef → Forest → Type 0
Holds m parent empty = Unit
Holds m parent (plant o kids beside) =
    IsNode m parent o (roots kids) × Holds m (some o) kids × Holds m parent beside

unfoldable pub lists : List ℕ → ℕ → Bool
lists [] l = false
lists (x ∷ xs) l = x == l || lists xs l

unfoldable pub IsAscending : List ℕ → Type 0
IsAscending [] = Unit
IsAscending (x ∷ xs) = ((l : ℕ) → lists xs l ≡ true → x < l) × IsAscending xs

abbrev pub is_some : {A : Type 0} → Option A → Bool
is_some none = false
is_some (some a) = true

unfoldable pub IsDistinct : List ℕ → Type 0
IsDistinct [] = Unit
IsDistinct (x ∷ xs) = (lists xs x ≡ false) × IsDistinct xs

-- `record_order` lists the slots of the records, ascending, and `free_slots` lists others, once each;
-- a slot of either kind is below the next identity.
pub record IsIndexed (s : Store) : Type 0 where
  pub ascending : IsAscending s.record_order
  pub lists_all : (l : ℕ) → lists s.record_order l ≡ is_some (find s.records l)
  pub distinct : IsDistinct s.free_slots
  pub unused : (l : ℕ) → lists s.free_slots l ≡ true → is_some (find s.records l) ≡ false
  pub issued :
      (l : ℕ) → (is_some (find s.records l) || lists s.free_slots l) ≡ true → l < s.next_identity

pub Holds-agree :
    (m m' : Map Record) (parent : Option ObjectRef) (f : Forest)
    → ((l : ℕ) → has f l ≡ true → find m' l ≡ find m l)
    → Holds m parent f
    → Holds m' parent f
unfolding Holds has
Holds-agree m m' parent empty agree h = tt
Holds-agree m m' parent (plant o kids beside) agree (node, below, next) = (
  record {
    held = node.held;
    here = agree o.logical (rw (==_self o.logical) refl) ∙ node.here;
    ages = node.ages;
    lives = node.lives;
    below = node.below;
    owns = node.owns;
  },
  Holds-agree m m' (some o) kids (λ l e. agree l (ground arith)) below,
  Holds-agree m m' parent beside (λ l e. agree l (ground arith)) next,
)

pub remove_id_lem :
    (k : ℕ) (xs : List ℕ)
    → IsAscending xs
    → lists xs k ≡ true
    → (ys : List ℕ) × (remove_id k xs ≡ some ys)
      × IsAscending ys
      × ((l : ℕ) → lists ys l ≡ lists xs l && not (k == l))
unfolding remove_id lists IsAscending
remove_id_lem k [] asc e = absurd (cc e)
remove_id_lem k (x ∷ xs) asc e = elim (Bool-cases (x == k)) [
  | inl same ↦
      (xs, rw same refl, asc.1, λ l. ground (arith, ==_iff x k, ==_iff x l, ==_iff k l, asc.0 l))
  | inr other ↦
      let (ys, removed, asc', lists') = remove_id_lem k xs asc.1 (ground arith) in
      (
        x ∷ ys,
        rw (other, removed) refl,
        ((λ l e'. asc.0 l (ground (arith, lists' l))), asc'),
        λ l. ground (arith, lists' l, ==_iff x k, ==_iff x l, ==_iff k l),
      )
]

pub insert_id_lem :
    (k : ℕ) (xs : List ℕ)
    → IsAscending xs
    → lists xs k ≡ false
    → IsAscending (insert_id k xs) × ((l : ℕ) → lists (insert_id k xs) l ≡ (k == l || lists xs l))
unfolding insert_id lists IsAscending
insert_id_lem k [] asc e = (((λ l e'. absurd (cc e')), tt), λ l. refl)
insert_id_lem k (x ∷ xs) asc e = elim (Bool-cases (ltb x k)) [
  | inl less ↦
      let (asc', lists') = insert_id_lem k xs asc.1 (ground arith) in
      rw less (
        (
          (λ l e'. elim (Bool-cases (k == l)) [
            | inl same ↦ omega (arith, (==_iff k l).0 same, ltb→lt x k less)
            | inr other ↦ asc.0 l (ground (arith, lists' l))
          ]),
          asc',
        ),
        λ l. ground (arith, lists' l),
      )
  | inr more ↦
      let x≠k : (x == k) ≡ false = ground arith in
      let greater : k < x = ground (arith, ==_iff x k, lt→ltb x k) in
      rw more (
        (
          (λ l e'. elim (Bool-cases (x == l)) [
            | inl same ↦ omega (arith, (==_iff x l).0 same, greater)
            | inr other ↦ omega (arith, asc.0 l (ground arith), greater)
          ]),
          asc,
        ),
        λ l. refl,
      )
]
