-- ===== src/Relations/Revert.antt =====
-- relations.rs, `revert` and the switches of the journal.
use zebulon_lang.Prelude.{
  ℕ, ◌+◌, Bool, true, false, none, some, List, [], ◌∷◌, if◌then◌else◌, get_elem?, set as set_elem,
  ok,
}
use zebulon_lang.Errors.{Answer}
use zebulon_lang.Relations.Table.{Delta, Relations, reposition}
use zebulon_lang.Relations.Update.{unset, insert}

-- How many rows a change moved: an error and an answer `false` moved none.
abbrev moved : Answer Bool → ℕ
moved (ok true) = 1
moved _ = 0

-- `&mut self.tables[delta.relation]`, whose cached chains stay as they are.
unfoldable pub reposition_row : Delta → Relations → Relations
reposition_row d s = elim (get_elem? s.tables d.relation) [
  | none ↦ s
  | some t ↦ record s {
    tables = set_elem s.tables d.relation (record t { rows = reposition d t.rows });
  }
]

unfoldable pub put_back : Delta → Answer Bool × Relations → ℕ × Relations
put_back d (ok true, s) = (1, reposition_row d s)
put_back d (_, s) = (0, s)

-- The body of the loop, for one delta.
unfoldable pub revert_one : Delta → Relations → ℕ × Relations
unfolding put_back
revert_one d s =
    if d.added
    then (let (answer, s') = unset d.relation d.left d.right s in (moved answer, s'))
    else put_back d (insert d.relation d.left d.right s)

-- The newest delta stands last, and is reverted first.
unfoldable pub revert_all : List Delta → Relations → ℕ × Relations
revert_all [] s = (0, s)
revert_all (d ∷ ds) s =
    let (n, s') = revert_all ds s in let (m, s'') = revert_one d s' in (n + m, s'')

unfoldable pub revert : List Delta → Relations → ℕ × Relations
unfolding revert_all
revert deltas s =
    let recording = s.journalling in
    let (n, s') = revert_all deltas (record s { journalling = false }) in
    (n, record s' { journalling = recording })

unfoldable pub set_journalling : Bool → Relations → Relations
set_journalling on s = record s { journalling = on }

unfoldable pub take_journal : Relations → List Delta × Relations
take_journal s = (s.journal, record s { journal = [] })

unfoldable pub clear_journal : Relations → Relations
clear_journal s = record s { journal = [] }

unfoldable pub reset : Relations → Relations
reset s = record { tables = []; labelled = []; journal = []; journalling = false }
