-- ===== src/Relations/Query.antt =====
-- relations.rs, the calls that read, and those that create tables.
use zebulon_lang.Prelude.{
  ℕ, ◌+◌, ◌-◌, Bool, true, false, Option, none, some, List, [], ◌∷◌, ◌++◌, ◌&&◌, leb, ◌==◌,
  if◌then◌else◌, length, get_elem?, set, replicate, head?, Result, ok, err,
}
use zebulon_lang.Prelude.Results.{◌>>=◌}
use zebulon_lang.Errors.{Error, invalid_argument, wrong_type, Answer, ObjectRef, handle}
use zebulon_lang.Relations.Table.{
  Cardinality, one_to_one, one_to_many, many_to_many, left_is_many, right_is_many, Table, Relations,
  default_table, mem, Update,
}

-- `ok_or(Error::InvalidArgument)`
abbrev pub or_invalid {ℓ} : {A : Type ℓ} → Option A → Result Error A
or_invalid none = err invalid_argument
or_invalid (some a) = ok a

abbrev pub declared : Option Cardinality → Table → Answer Table
declared none t = err invalid_argument
declared (some _) t = ok t

unfoldable pub table : Relations → ℕ → Answer Table
table s relation = or_invalid (get_elem? s.tables relation) >>= λ t. declared t.cardinality t

unfoldable pub cardinality : Relations → ℕ → Answer Cardinality
cardinality s relation = table s relation >>= λ t. or_invalid t.cardinality

unfoldable pub contains : Relations → ℕ → ObjectRef → ObjectRef → Answer Bool
contains s relation l r = table s relation >>= λ t. ok (mem (t.forward (handle l)) r)

unfoldable pub all : Relations → ℕ → ObjectRef → Bool → Answer (List ObjectRef)
all s relation key reversed =
    table s relation >>= λ t. ok ((if reversed then t.reverse else t.forward) (handle key))

-- The first entry of a label in a family of tables.
unfoldable pub label_index : List ((ℕ × ℕ) × ℕ) → ℕ → ℕ → Option ℕ
label_index [] relation label = none
label_index (((base, l), index) ∷ rest) relation label =
    if base == relation && l == label then some index else label_index rest relation label

unfoldable pub all_labelled : Relations → ℕ → ObjectRef → Bool → ℕ → Answer (List ObjectRef)
all_labelled s relation key reversed label = elim (label_index s.labelled relation label) [
  | none ↦ ok []
  | some index ↦ all s index key reversed
]

unfoldable pub get : Relations → ℕ → ObjectRef → Bool → Answer (Option ObjectRef)
get s relation key reversed = cardinality s relation >>= λ c.
    if (if reversed then right_is_many c else left_is_many c)
    then err wrong_type
    else (all s relation key reversed >>= λ partners. ok (head? partners))

-- `found.sort_unstable()` on pairs of distinct labels.
insert_pair : ℕ × ℕ → List (ℕ × ℕ) → List (ℕ × ℕ)
insert_pair p [] = p ∷ []
insert_pair (l, i) ((m, j) ∷ rest) =
    let later = insert_pair (l, i) rest in
    if leb l m then (l, i) ∷ (m, j) ∷ rest else (m, j) ∷ later

tables_among : List ((ℕ × ℕ) × ℕ) → ℕ → List (ℕ × ℕ)
tables_among [] relation = []
tables_among (((base, label), index) ∷ rest) relation =
    let found = tables_among rest relation in
    if base == relation then insert_pair (label, index) found else found

unfoldable pub tables_of : Relations → ℕ → List (ℕ × ℕ)
unfolding tables_among insert_pair
tables_of s relation = tables_among s.labelled relation

unfoldable pub same_cardinality : Cardinality → Cardinality → Bool
same_cardinality one_to_one one_to_one = true
same_cardinality one_to_many one_to_many = true
same_cardinality many_to_many many_to_many = true
same_cardinality _ _ = false

-- The table takes the cardinality of its first declaration, and refuses another one later.
unfoldable pub claim : Option Cardinality → Cardinality → Table → Answer Unit × Table
claim none c t = (ok tt, record t { cardinality = some c })
claim (some existing) c t = (if same_cardinality existing c then ok tt else err wrong_type, t)

-- `self.tables[index]`; the tables were grown to hold it, so the first case is not met.
unfoldable pub claim_at : Option Table → ℕ → Cardinality → Update Unit
claim_at none index c s = (err invalid_argument, s)
claim_at (some t) index c s =
    let (answer, t') = claim t.cardinality c t in
    (answer, record s { tables = set s.tables index t' })

unfoldable pub grown : ℕ → List Table → List Table
grown index tables =
    if leb (length tables) index
    then tables ++ replicate (index + 1 - length tables) default_table
    else tables

unfoldable pub ensure : ℕ → Cardinality → Update Unit
unfolding claim_at claim same_cardinality grown
ensure index c s =
    let tables = grown index s.tables in
    claim_at (get_elem? tables index) index c (record s { tables = tables })

unfoldable pub declare : Cardinality → Update ℕ
declare c s = (
  ok (length s.tables),
  record s { tables = s.tables ++ record default_table { cardinality = some c } ∷ [] },
)

-- A known label is checked again; a new one gets the next free table.
unfoldable pub label_new : ℕ → ℕ → Cardinality → Update ℕ
label_new relation label c s =
    let index = length s.tables in
    let (answer, s') = ensure index c s in
    elim answer [
      | err e ↦ (err e, s')
      | ok _ ↦ (ok index, record s' { labelled = ((relation, label), index) ∷ s'.labelled })
    ]

unfoldable pub label_known : ℕ → Cardinality → Update ℕ
label_known index c s =
    let (answer, s') = ensure index c s in
    elim answer [ err e ↦ (err e, s') | ok _ ↦ (ok index, s') ]

unfoldable pub ensure_labelled : ℕ → ℕ → Cardinality → Update ℕ
unfolding label_new label_known
ensure_labelled relation label c s = elim (label_index s.labelled relation label) [
  | some index ↦ label_known index c s
  | none ↦ label_new relation label c s
]
