-- ===== src/Relations/Native.antt =====
-- relations.rs, a turn as the native entries make it: each declares the table of the row first, by
-- `ensure` or `ensure_labelled`, and these write no delta.
use zebulon_lang.Relations.Declared.{
  ensure_labelled-Declares, Extends-content, Declares, ensure-Declares, Extends-tables,
  declare-Declares,
}
use zebulon_lang.Prelude.{
  ℕ, ◌≡◌, refl, sym, ap, ◌∙◌, true, false, List, [], ◌∷◌, ◌++◌, append-nil, append_assoc,
}
use zebulon_lang.Relations.Table.{Cardinality, Delta, Relations}
use zebulon_lang.Relations.Query.{ensure, ensure_labelled, declare}
use zebulon_lang.Relations.Undo.{content}
use zebulon_lang.Relations.Over.{Extends, Extends-refl, Over, Over-nil, Over-append}
use zebulon_lang.Relations.Steps.{IsRelations, Step}
use zebulon_lang.Relations.Create.{
  ensure-IsRelations, declare-IsRelations, ensure_labelled-IsRelations,
}
use zebulon_lang.Relations.Turn.{Call, IsCall, after, Step-after}
use zebulon_lang.Relations.Revert.{revert_all, revert, take_journal}

-- What a turn calls: changes of rows, and the declarations that come before them.
pub data NativeCall : Type 0 where
  row_call : Call → NativeCall
  declare_new : Cardinality → NativeCall
  ensure_at : ℕ → Cardinality → NativeCall
  ensure_label : ℕ → ℕ → Cardinality → NativeCall

abbrev pub IsNativeCall : ℕ → NativeCall → Type 0
IsNativeCall session (row_call c) = IsCall session c
IsNativeCall session _ = Unit

abbrev pub AreNativeCalls : ℕ → List NativeCall → Type 0
AreNativeCalls session [] = Unit
AreNativeCalls session (c ∷ cs) = IsNativeCall session c × AreNativeCalls session cs

-- The state after a call, whether it succeeded or not.
abbrev pub after_native : NativeCall → Relations → Relations
after_native (row_call c) s = after c s
after_native (declare_new c) s = (declare c s).1
after_native (ensure_at index c) s = (ensure index c s).1
after_native (ensure_label relation label c) s = (ensure_labelled relation label c s).1

unfoldable pub native_run : List NativeCall → Relations → Relations
native_run [] s = s
native_run (c ∷ cs) s = native_run cs (after_native c s)

-- A change that keeps the invariant, and whose new deltas lead back over what it declared.
record Moves (session : ℕ) (s u : Relations) : Type 0 where
  valid : IsRelations session u
  switch : u.journalling ≡ s.journalling
  undo : s.journalling ≡ true → (ds : List Delta) × (u.journal ≡ s.journal ++ ds) × Over ds u s

Moves-Declares :
    {session : ℕ} {s u : Relations} → IsRelations session u → Declares s u → Moves session s u
Moves-Declares {session} {s} {u} v d = record {
  valid = v;
  switch = d.switch;
  undo = λ on. ([], d.written ∙ sym (append-nil s.journal), Over-nil (Extends-content s u d.more));
}

Moves-Step : {session : ℕ} {s u : Relations} → Step session s u → Moves session s u
Moves-Step step = record {
  valid = step.valid;
  switch = step.switch;
  undo = λ on. let (ds, e, _, over) = step.undo on in (ds, e, over);
}

Moves-trans :
    {session : ℕ} {s m u : Relations} → Moves session s m → Moves session m u → Moves session s u
Moves-trans {session} {s} {m} {u} a b = record {
  valid = b.valid;
  switch = b.switch ∙ a.switch;
  undo = λ on.
      let (ds, e, over) = a.undo on in
      let (es, e', over') = b.undo (a.switch ∙ on) in
      (
        ds ++ es,
        e' ∙ ap (λ j. j ++ es) e ∙ append_assoc s.journal ds es,
        Over-append ds es over' over,
      );
}

Moves-after_native :
    {session : ℕ} {s : Relations} (c : NativeCall)
    → IsRelations session s
    → IsNativeCall session c
    → Moves session s (after_native c s)
Moves-after_native (row_call c) v h = Moves-Step (Step-after c v h)
Moves-after_native {session} {s} (declare_new c) v h =
    Moves-Declares (declare-IsRelations session c s v) (declare-Declares c s)
Moves-after_native {session} {s} (ensure_at index c) v h =
    Moves-Declares (ensure-IsRelations session index c s v) (ensure-Declares index c s)
Moves-after_native {session} {s} (ensure_label relation label c) v h =
    Moves-Declares (ensure_labelled-IsRelations session relation label c s v)
      (ensure_labelled-Declares relation label c s)

Moves-run :
    {session : ℕ} (cs : List NativeCall) {s : Relations}
    → IsRelations session s
    → AreNativeCalls session cs
    → Moves session s (native_run cs s)
unfolding native_run
Moves-run [] {s} v h =
    Moves-Declares v (record { more = Extends-refl s.tables; switch = refl; written = refl })
Moves-run (c ∷ cs) v h =
    let first = Moves-after_native c v h.0 in Moves-trans first (Moves-run cs first.valid h.1)

-- Whatever `set`, `unset`, `forget`, with references of the session, and `declare`, `ensure` and
-- `ensure_labelled` a turn called on well-formed relations while the journal was on and empty, and
-- whether each succeeded or failed: taking the journal and reverting it gives each table both its
-- maps back, each list in its order, and where there was no table before there are no rows; each
-- table that was declared before has its cardinality; and the journal is on again. A table that was
-- not declared before may be so now. Labels and cached chains are left out of the comparison.
pub revert-native_run :
    {session : ℕ} {s : Relations} (cs : List NativeCall)
    → IsRelations session s
    → AreNativeCalls session cs
    → s.journalling ≡ true
    → s.journal ≡ []
    → let (deltas, u) = take_journal (native_run cs s) in
      Extends s.tables (revert deltas u).1.tables × ((revert deltas u).1.journalling ≡ true)
unfolding take_journal revert
revert-native_run {session} {s} cs v h on empty =
    let moved = Moves-run cs v h in
    let (ds, e, over) = moved.undo on in
    let all : (native_run cs s).journal ≡ ds = e ∙ ap (λ j. j ++ ds) empty in
    let taken : Relations = record (native_run cs s) { journal = []; journalling = false } in
    rw all (
      Extends-tables s (revert_all ds taken).1
          (over.lead_over taken refl (Extends-refl (content (native_run cs s)))).0,
      moved.switch ∙ on,
    )
