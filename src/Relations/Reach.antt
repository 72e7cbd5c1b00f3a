-- ===== src/Relations/Reach.antt =====
-- relations.rs: every state that the calls reach from a reset one.
use zebulon_lang.Prelude.{ℕ, Bool, List, [], ◌∷◌}
use zebulon_lang.Relations.Table.{Cardinality, Relations}
use zebulon_lang.Relations.Steps.{IsRelations}
use zebulon_lang.Relations.Query.{ensure, ensure_labelled, declare}
use zebulon_lang.Relations.Revert.{reset, set_journalling, clear_journal}
use zebulon_lang.Relations.Create.{
  ensure-IsRelations, declare-IsRelations, ensure_labelled-IsRelations,
}
use zebulon_lang.Relations.Turn.{Call, IsCall, after, Step-after}

-- A call that makes a table, one on rows, or a switch of the journal.
pub data Action : Type 0 where
  declare_new : Cardinality → Action
  ensure_at : ℕ → Cardinality → Action
  ensure_label : ℕ → ℕ → Cardinality → Action
  row_call : Call → Action
  switch_journal : Bool → Action
  drop_journal start_over : Action

abbrev pub IsAction : ℕ → Action → Type 0
IsAction session (row_call c) = IsCall session c
IsAction session _ = Unit

abbrev pub AreActions : ℕ → List Action → Type 0
AreActions session [] = Unit
AreActions session (a ∷ acts) = IsAction session a × AreActions session acts

abbrev pub act : Action → Relations → Relations
act (declare_new c) s = (declare c s).1
act (ensure_at index c) s = (ensure index c s).1
act (ensure_label relation label c) s = (ensure_labelled relation label c s).1
act (row_call c) s = after c s
act (switch_journal on) s = set_journalling on s
act drop_journal s = clear_journal s
act start_over s = reset s

unfoldable pub reach : List Action → Relations → Relations
reach [] s = s
reach (a ∷ acts) s = reach acts (act a s)

reset-IsRelations : (session : ℕ) (s : Relations) → IsRelations session (reset s)
unfolding reset
reset-IsRelations session s = record { each = λ i t e. cc e }

act-IsRelations :
    {session : ℕ} (a : Action) (s : Relations)
    → IsAction session a
    → IsRelations session s
    → IsRelations session (act a s)
unfolding set_journalling clear_journal
act-IsRelations (declare_new c) s v h = declare-IsRelations _ c s h
act-IsRelations (ensure_at index c) s v h = ensure-IsRelations _ index c s h
act-IsRelations (ensure_label relation label c) s v h =
    ensure_labelled-IsRelations _ relation label c s h
act-IsRelations (row_call c) s v h = (Step-after c h v).valid
act-IsRelations (switch_journal on) s v h = record { each = h.each }
act-IsRelations drop_journal s v h = record { each = h.each }
act-IsRelations start_over s v h = reset-IsRelations _ s

reach-kept :
    {session : ℕ} (acts : List Action) (s : Relations)
    → AreActions session acts
    → IsRelations session s
    → IsRelations session (reach acts s)
unfolding reach
reach-kept [] s v h = h
reach-kept (a ∷ acts) s (va, v) h = reach-kept acts (act a s) v (act-IsRelations a s va h)

-- From a reset state, any sequence of declarations, of calls on rows with references of the session,
-- whether they succeed or fail, and of switches of the journal leads to a state where the two maps of
-- each table mirror one another, hold no row twice, only references of the session, and never two
-- partners for a side that may have one, and where an undeclared table has no rows.
pub reach-IsRelations :
    (session : ℕ) (s : Relations) (acts : List Action)
    → AreActions session acts
    → IsRelations session (reach acts (reset s))
reach-IsRelations session s acts v = reach-kept acts (reset s) v (reset-IsRelations session s)
