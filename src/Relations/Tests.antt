-- ===== src/Relations/Tests.antt =====
-- relations.rs: a containment relation of rooms and things, and the theorems on it.
use zebulon_lang.Prelude.{
  ℕ, zero, suc, ◌^◌, ◌<◌, ◌≡◌, refl, true, not, ◌&&◌, ◌||◌, List, [], ◌∷◌, arith, ok, some, length,
  get_elem?, subst,
}
use zebulon_lang.Errors.{ObjectRef, ref_eq, handle, IsIssued}
use zebulon_lang.Relations.Table.{
  one_to_one, one_to_many, Table, Relations, default_table, mem, link, unlink, position,
}
use zebulon_lang.Relations.Rows.{holds}
use zebulon_lang.Relations.Undo.{Found, content}
use zebulon_lang.Relations.Steps.{IsTable, IsRelations, Step}
use zebulon_lang.Relations.Set.{displaced, set_lem}
use zebulon_lang.Relations.Update.{
  set, unset, forget, displaced_left, displaced_right, reserve_journal, prepare_insert, insert,
  push_delta, change_rows,
}
use zebulon_lang.Relations.Query.{cardinality, table, contains}
use zebulon_lang.Relations.Revert.{revert, take_journal, reset}
use zebulon_lang.Relations.Create.{new-IsTable}
use zebulon_lang.Relations.Turn.{Call, set_row, unset_row, forget_entity, run, revert-run}
use zebulon_lang.Relations.Over.{Extends}
use zebulon_lang.Relations.Native.{NativeCall, native_run, revert-native_run, ensure_at}
use zebulon_lang.Relations.Native
use zebulon_lang.Relations.Reach.{
  declare_new, ensure_label, row_call, switch_journal, reach, reach-IsRelations,
}

abbrev entity : ℕ → ObjectRef
entity k = record { session = 1; logical = k; incarnation = 1 }

entity-IsIssued : (k : ℕ) → k < 2 ^ 32 → IsIssued 1 (entity k)
entity-IsIssued k h = record { here = refl; logical_fits = h; incarnation_fits = omega arith }

-- One relation, each thing in at most one place, and nothing in it yet.
abbrev holding : Table
holding = record default_table { cardinality = some one_to_many }

abbrev world : Relations
world = record { tables = holding ∷ []; labelled = []; journal = []; journalling = true }

one_table-IsRelations : (s : Relations) → s.tables ≡ holding ∷ [] → IsRelations 1 s
one_table-IsRelations s e = record { each = λ i t h. found i t (rw e at h) }
  where
    found : (i : ℕ) (t : Table) → get_elem? (holding ∷ []) i ≡ some t → IsTable 1 t
    found zero t h = subst (IsTable 1) (cc h) (new-IsTable 1 holding refl)
    found (suc i) t h = cc h

-- Thing 7 goes to room 2, then to room 3, and room 2 is forgotten.
abbrev turn : List Call
turn =
    set_row 0 (entity 2) (entity 7)
    ∷ set_row 0 (entity 3) (entity 7)
    ∷ forget_entity (entity 2)
    ∷ []

revert-run_example :
    let (deltas, u) = take_journal (run turn world) in
    (content (revert deltas u).1 ≡ content world) × ((revert deltas u).1.journalling ≡ true)
revert-run_example =
    revert-run turn (one_table-IsRelations world refl)
      (
        (entity-IsIssued 2 (omega arith), entity-IsIssued 7 (omega arith)),
        (
          (entity-IsIssued 3 (omega arith), entity-IsIssued 7 (omega arith)),
          (entity-IsIssued 2 (omega arith), tt),
        ),
      )
      refl refl

-- A turn that declares a table of its own, relabels one, and puts a row in it.
abbrev native_turn : List NativeCall
native_turn =
    ensure_at 0 one_to_many
    ∷ Native.row_call (set_row 0 (entity 2) (entity 7))
    ∷ Native.ensure_label 0 5 one_to_one
    ∷ Native.row_call (set_row 1 (entity 2) (entity 3))
    ∷ []

revert-native_run_example :
    let (deltas, u) = take_journal (native_run native_turn world) in
    Extends world.tables (revert deltas u).1.tables × ((revert deltas u).1.journalling ≡ true)
revert-native_run_example =
    revert-native_run native_turn (one_table-IsRelations world refl)
      (
        tt,
        (
          (entity-IsIssued 2 (omega arith), entity-IsIssued 7 (omega arith)),
          (tt, ((entity-IsIssued 2 (omega arith), entity-IsIssued 3 (omega arith)), tt)),
        ),
      )
      refl refl

-- Both moves wrote to the journal.
turn_journal : length (run turn world).journal ≡ 3
unfolding run set unset forget handle ref_eq cardinality table contains mem displaced_left
    displaced_right reserve_journal prepare_insert insert push_delta change_rows link position
    unlink
turn_journal = refl

set_example :
    (u : Relations) × (tu : Table) × (set 0 (entity 2) (entity 7) world ≡ (ok tt, u))
    × Step 1 world u
    × Found u 0 one_to_many tu
    × ((a b : ObjectRef)
        → IsIssued 1 a
        → IsIssued 1 b
        → holds tu.rows a b
          ≡ (ref_eq (entity 2) a && ref_eq (entity 7) b)
            || (holds holding.rows a b && not (displaced one_to_many (entity 2) (entity 7) a b)))
set_example =
    set_lem (one_table-IsRelations world refl) (record { here = refl; declared = refl })
      (entity-IsIssued 2 (omega arith)) (entity-IsIssued 7 (omega arith)) refl

reach_example : IsRelations 1 (
    reach
      (declare_new one_to_many
        ∷ ensure_label 0 5 one_to_many
        ∷ switch_journal true
        ∷ row_call (set_row 1 (entity 2) (entity 7))
        ∷ row_call (unset_row 0 (entity 2) (entity 7))
        ∷ [])
      (reset world))
reach_example =
    reach-IsRelations 1 world
      (declare_new one_to_many
        ∷ ensure_label 0 5 one_to_many
        ∷ switch_journal true
        ∷ row_call (set_row 1 (entity 2) (entity 7))
        ∷ row_call (unset_row 0 (entity 2) (entity 7))
        ∷ [])
      (
        tt,
        (
          tt,
          (
            tt,
            (
              (entity-IsIssued 2 (omega arith), entity-IsIssued 7 (omega arith)),
              ((entity-IsIssued 2 (omega arith), entity-IsIssued 7 (omega arith)), tt),
            ),
          ),
        ),
      )
