-- ===== src/Relations/Update.antt =====
-- relations.rs, the calls that change rows: `set`, `unset`, `forget` and `revert`, each with the
-- journal that it writes.
use zebulon_lang.Prelude.{
  ℕ, suc, ◌+◌, Bool, true, false, Option, none, some, List, [], ◌∷◌, ◌++◌, ◌&&◌, map, ltb,
  if◌then◌else◌, length, get_elem?, set as set_elem, head?, ok, err,
}
use zebulon_lang.Prelude.Exec.{pure, asks, modify, ◌>>=◌, ◌>>◌}
use zebulon_lang.Errors.{resource_limit, Answer, ObjectRef, handle}
use zebulon_lang.Relations.Table.{
  Cardinality, left_is_many, right_is_many, Delta, Rows, Table, Relations, position, unlink, link,
  Update,
}
use zebulon_lang.Relations.Query.{or_invalid, cardinality, contains}

abbrev pub journal_limit : ℕ
journal_limit = 1_000_000

-- The journal must have room for `count` more deltas, if it is being written.
unfoldable pub reserve_journal : ℕ → Update Unit
reserve_journal count s =
    if s.journalling && ltb journal_limit (length s.journal + count)
    then (err resource_limit, s)
    else (ok tt, s)

unfoldable pub push_delta : Delta → Relations → Relations
push_delta d s = if s.journalling then record s { journal = s.journal ++ d ∷ [] } else s

-- A change of one table's rows makes its cached chains stale.
unfoldable pub change_rows : ℕ → (Rows → Rows) → Relations → Relations
change_rows relation f s = elim (get_elem? s.tables relation) [
  | none ↦ s
  | some t ↦ record s {
    tables = set_elem s.tables relation (record t { rows = f t.rows; outermost = λ _. none });
  }
]

abbrev pub removal : ℕ → ObjectRef → ObjectRef → ℕ → ℕ → Delta
removal relation l r fp rp = record {
  relation = relation;
  left = l;
  right = r;
  added = false;
  forward_position = fp;
  reverse_position = rp;
}

abbrev pub addition : ℕ → ObjectRef → ObjectRef → Delta
addition relation l r = record {
  relation = relation;
  left = l;
  right = r;
  added = true;
  forward_position = 0;
  reverse_position = 0;
}

-- `unset` from the point where the row is known to be there.
unset_held : ℕ → ObjectRef → ObjectRef → Update Bool
unset_held relation l r = do
  reserve_journal 1
  t ← asks (λ s. or_invalid (get_elem? s.tables relation))
  fp ← asks (λ _. or_invalid (position r (t.forward (handle l))))
  rp ← asks (λ _. or_invalid (position l (t.reverse (handle r))))
  modify (change_rows relation (unlink l r))
  modify (push_delta (removal relation l r fp rp))
  pure true

unfoldable pub unset : ℕ → ObjectRef → ObjectRef → Update Bool
unfolding unset_held
unset relation l r = do
  held ← asks (λ s. contains s relation l r)
  if held then unset_held relation l r else pure false

unfoldable pub prepare_insert : ℕ → ObjectRef → ObjectRef → Update Unit
prepare_insert relation l r = do t ← asks (λ s. or_invalid (get_elem? s.tables relation)); pure tt

-- One row, with no displacement and no journal entry.
unfoldable pub insert : ℕ → ObjectRef → ObjectRef → Update Bool
unfolding prepare_insert
insert relation l r = do
  held ← asks (λ s. contains s relation l r)
  if held
      then pure false
      else do prepare_insert relation l r; modify (change_rows relation (link l r)); pure true

-- The partner that a side with one partner gives up.
unfoldable pub displaced_left : Cardinality → ℕ → ObjectRef → Relations → Answer (Option ObjectRef)
displaced_left c relation r s =
    if right_is_many c then ok none else elim (or_invalid (get_elem? s.tables relation)) [
      | err e ↦ err e
      | ok t ↦ ok (head? (t.reverse (handle r)))
    ]

unfoldable pub displaced_right : Cardinality → ℕ → ObjectRef → Relations → Answer (Option ObjectRef)
displaced_right c relation l s =
    if left_is_many c then ok none else elim (or_invalid (get_elem? s.tables relation)) [
      | err e ↦ err e
      | ok t ↦ ok (head? (t.forward (handle l)))
    ]

unfoldable pub unset_previous_left : ℕ → Option ObjectRef → ObjectRef → Update Unit
unset_previous_left relation none r = pure tt
unset_previous_left relation (some previous) r = do unset relation previous r; pure tt

unfoldable pub unset_previous_right : ℕ → ObjectRef → Option ObjectRef → Update Unit
unset_previous_right relation l none = pure tt
unset_previous_right relation l (some previous) = do unset relation l previous; pure tt

-- `set` from the point where the row is known to be absent.
unfoldable pub set_new : Cardinality → ℕ → ObjectRef → ObjectRef → Update Unit
unfolding unset_previous_left unset_previous_right
set_new c relation l r = do
  old_left ← asks (displaced_left c relation r)
  old_right ← asks (displaced_right c relation l)
  reserve_journal 3
  prepare_insert relation l r
  unset_previous_left relation old_left r
  unset_previous_right relation l old_right
  insert relation l r
  modify (push_delta (addition relation l r))
  pure tt

unfoldable pub set : ℕ → ObjectRef → ObjectRef → Update Unit
unfolding set_new
set relation l r = do
  c ← asks (λ s. cardinality s relation)
  held ← asks (λ s. contains s relation l r)
  if held then pure tt else set_new c relation l r

-- Every row that names `entity`, table by table.
unfoldable pub rows_naming : ObjectRef → ℕ → List Table → List (ℕ × ObjectRef × ObjectRef)
rows_naming entity index [] = []
rows_naming entity index (t ∷ rest) =
    map (λ right. (index, entity, right)) (t.forward (handle entity))
    ++ (map (λ left. (index, left, entity)) (t.reverse (handle entity))
        ++ rows_naming entity (suc index) rest)

unfoldable pub unset_all : List (ℕ × ObjectRef × ObjectRef) → ℕ → Update ℕ
unset_all [] removed = pure removed
unset_all ((relation, l, r) ∷ rest) removed = do
  done ← unset relation l r
  unset_all rest (if done then suc removed else removed)

unfoldable pub forget : ObjectRef → Update ℕ
unfolding rows_naming unset_all
forget entity s = unset_all (rows_naming entity 0 s.tables) 0 s
