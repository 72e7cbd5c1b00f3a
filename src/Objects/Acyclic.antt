-- ===== src/Objects/Acyclic.antt =====
-- objects.rs, `add_prototype`: no class comes to be its own superclass.
use zebulon_lang.Objects.Stale.{record_of_native}
use zebulon_lang.Prelude.Exec.{◌>>◌, ◌>>=◌}
use zebulon_lang.Objects.Uproot.{active_lem}
use zebulon_lang.Objects.Destroy.{edit}
use zebulon_lang.Objects.History.{journal_container}
use zebulon_lang.Objects.Fields.{is_quota_full, append_prototype, add_prototype}
use zebulon_lang.Prelude.Maps.{find-insert_self, find-insert_ne, find, insert}
use zebulon_lang.Prelude.{
  ◌&&◌, ==_iff, ◌==◌, Bool-cases, ◌≢◌, ap, arith, subst, ◌+◌, ◌||◌, ◌∙◌, ◌∷◌, ◌⊎◌, sym, ◌++◌, ◌≡◌,
  List, Bool, refl, some, true, false, ok, err, [], inl, inr,
}
use zebulon_lang.Errors.{expired, mem, ref_eq, ObjectRef, ref_eq_iff, inheritance_cycle}
use zebulon_lang.Objects.{refuse, Record, Store, Fault, Look, returned, out_of_fuel}
use zebulon_lang.Objects.Access.{current, record_of, descends, is_ok}
use zebulon_lang.Objects.Ages.Writes.{record_of_found}
use zebulon_lang.Objects.Kinds.{
  Descends, direct, through, Descends-trans, Decides, descends-Descends,
}
use zebulon_lang.Objects.Kinds.Ends.{record_of_age, slot_one}

-- No record is among its own superclasses, at any distance.
unfoldable pub IsAcyclic : Store → Type 0
IsAcyclic s = (o : ObjectRef) → ¬ Descends s o o

abbrev extended : Store → ObjectRef → ObjectRef → Record → Store
extended s o p r = record s {
  records = insert o.logical (record r { prototypes = r.prototypes ++ p ∷ [] }) s.records;
  inheritance_edges = s.inheritance_edges + 1;
}

mem-append : (xs ys : List ObjectRef) (x : ObjectRef) → mem (xs ++ ys) x ≡ (mem xs x || mem ys x)
unfolding mem
mem-append [] ys x = refl
mem-append (y ∷ xs) ys x = ground (arith, mem-append xs ys x)

-- What `add_prototype o p` may come to, where `o` reads `r`. It adds, where that closes no cycle: `o` has
-- one more superclass, its last, all else reads as before, and no record is among its own
-- superclasses. Or it is refused, where that would close one. Or the search for a cycle fails
-- because the read of a superclass of `p` does. What is refused or fails changes nothing.
pub data Adds (s : Store) (o p : ObjectRef) (r : Record) : Look Unit × Store → Type 0 where
  added :
      {u : Store}
      → ¬ ((o ≡ p) ⊎ Descends s o p)
      → record_of u o ≡ ok (record r { prototypes = r.prototypes ++ p ∷ [] })
      → ((x : ObjectRef) → (x ≡ o) ⊎ (record_of u x ≡ record_of s x))
      → IsAcyclic u
      → Adds s o p r (ok tt, u)
  closes : ((o ≡ p) ⊎ Descends s o p) → Adds s o p r (err (returned inheritance_cycle), s)
  broken :
      {f : Fault} {x : ObjectRef}
      → Descends s x p
      → record_of s x ≡ err f
      → f ≢ out_of_fuel
      → Adds s o p r (err f, s)

-- The three answers of the search, with its result.
answer_of :
    (s : Store) (o a : ObjectRef) {r : Record}
    → record_of s o ≡ ok r
    → ((descends s o a ≡ ok true) × Descends s a o)
      ⊎ ((descends s o a ≡ ok false) × ¬ Descends s a o)
      ⊎ ((f : Fault) × (descends s o a ≡ err f)
          × (p : ObjectRef) × Descends s p o
          × (record_of s p ≡ err f)
          × (f ≢ out_of_fuel))
answer_of s o a here = answered (descends s o a) refl (descends-Descends s o a here)
  where
    answered :
        (x : Look Bool)
        → descends s o a ≡ x
        → Decides s o a x
        → ((descends s o a ≡ ok true) × Descends s a o)
          ⊎ ((descends s o a ≡ ok false) × ¬ Descends s a o)
          ⊎ ((f : Fault) × (descends s o a ≡ err f)
              × (p : ObjectRef) × Descends s p o
              × (record_of s p ≡ err f)
              × (f ≢ out_of_fuel))
    answered _ e (Decides.is_above d) = inl (e, d)
    answered _ e (Decides.not_above d) = inr (inl (e, d))
    answered _ e (Decides.broken {f} {p} d gone timely) = inr (inr (f, e, p, d, gone, timely))

module _ (s : Store) (o p : ObjectRef) (r : Record) (here : record_of s o ≡ ok r) where
  -- A superclass after the change is one from before, or the new one of `o`.
  edge_of :
      (x y : ObjectRef) (q' : Record)
      → record_of (extended s o p r) x ≡ ok q'
      → mem q'.prototypes y ≡ true
      → (q : Record) × (record_of s x ≡ ok q) × ((mem q.prototypes y ≡ true) ⊎ ((x ≡ o) × (y ≡ p)))
  unfolding mem
  edge_of x y q' there above =
      let r' = record r { prototypes = r.prototypes ++ p ∷ [] } in
      let m = s.records in
      let m' = insert o.logical r' m in
      let (native, _) = record_of_age (extended s o p r) x q' there in
      let now : current x (find m' x.logical) ≡ ok q' =
        sym (record_of_native (extended s o p r) x native) ∙ there in
      elim (Bool-cases (o.logical == x.logical)) [
        | inr other ↦ (
          q',
          record_of_native s x native
              ∙ ap (current x) (sym (find-insert_ne m o.logical x.logical r' other))
              ∙ now,
          inl above,
        )
        | inl at ↦
            let slot : o.logical ≡ x.logical = (==_iff o.logical x.logical).0 at in
            let found' : find m' x.logical ≡ some r' =
              ap (find m') (sym slot) ∙ find-insert_self m o.logical r' in
            let found : find m x.logical ≡ some r =
              ap (find m) (sym slot) ∙ record_of_found s o r here in
            elim (Bool-cases (r.live && r.incarnation == x.incarnation)) [
              | inr old ↦
                  let bad : current x (some r') ≡ refuse expired = rw old refl in
                  absurd (cc (bad, ap (current x) found', now))
              | inl good ↦
                  let good' : current x (some r') ≡ ok r' = rw good refl in
                  let is : r' ≡ q' = cc (good', ap (current x) found', now) in
                  let was : record_of s x ≡ ok r =
                    record_of_native s x native ∙ ap (current x) found ∙ rw good refl in
                  let either : (mem r.prototypes y || mem (p ∷ []) y) ≡ true =
                    sym (mem-append r.prototypes (p ∷ []) y)
                    ∙ ap (λ (z : Record). mem z.prototypes y) is
                    ∙ above in
                  (
                    r,
                    was,
                    elim (Bool-cases (mem r.prototypes y)) [
                      | inl before ↦ inl before
                      | inr new ↦ inr (
                        slot_one s x o r r was here (sym slot),
                        sym ((ref_eq_iff p y).0 (ground (arith, either, new))),
                      )
                    ],
                  )
            ]
      ]

  path_of :
      (a x : ObjectRef)
      → Descends (extended s o p r) a x
      → Descends s a x ⊎ (((x ≡ o) ⊎ Descends s o x) × ((a ≡ p) ⊎ Descends s a p))
  path_of a x (direct there above) =
      let (q, was, edge) = edge_of x a _ there above in
      elim edge [ inl old ↦ inl (direct was old) | inr (at, is) ↦ inr (inl at, inl is) ]
  path_of a x (through {p = y} there above d) =
      let (q, was, edge) = edge_of x y _ there above in
      elim edge [
        | inl old ↦ elim (path_of a y d) [
          | inl e ↦ inl (through was old e)
          | inr (inl at, last) ↦ inr (inr (direct was (ap (mem q.prototypes) (sym at) ∙ old)), last)
          | inr (inr e, last) ↦ inr (inr (through was old e), last)
        ]
        | inr (at, is) ↦ elim (path_of a y d) [
          | inl e ↦ inr (inl at, inr (subst (Descends s a) is e))
          | inr (_, last) ↦ inr (inl at, last)
        ]
      ]

  extended-IsAcyclic :
      IsAcyclic s → ref_eq o p ≡ false → ¬ Descends s o p → IsAcyclic (extended s o p r)
  unfolding IsAcyclic
  extended-IsAcyclic acyclic differ apart a d = elim (path_of a a d) [
    | inl e ↦ acyclic a e
    | inr (inl at, inl is) ↦ absurd (cc (differ, (ref_eq_iff o p).1 (sym at ∙ is)))
    | inr (inl at, inr e) ↦ apart (subst (λ x. Descends s x p) at e)
    | inr (inr e, inl is) ↦ apart (subst (Descends s o) is e)
    | inr (inr e, inr f) ↦ apart (Descends-trans e f)
  ]

  abbrev grown_record : Record
  grown_record = record r { prototypes = r.prototypes ++ p ∷ [] }

  current_grown :
      (x : ObjectRef)
      → is_ok (current x (some r)) ≡ true
      → current x (some grown_record) ≡ ok grown_record
  current_grown x e = elim (Bool-cases (r.live && r.incarnation == x.incarnation)) [
    | inl good ↦ rw good refl
    | inr old ↦ absurd (cc (rw old at e))
  ]

  extended_self : record_of (extended s o p r) o ≡ ok grown_record
  extended_self =
      let (native, _) = record_of_age s o r here in
      let found = record_of_found s o r here in
      let reads : current o (some r) ≡ ok r =
        sym (ap (current o) found) ∙ sym (record_of_native s o native) ∙ here in
      record_of_native (extended s o p r) o native
      ∙ ap (current o) (find-insert_self s.records o.logical grown_record)
      ∙ current_grown o (ap is_ok reads)

  -- No other reference reads anything else.
  extended_other : (x : ObjectRef) → x ≢ o → record_of (extended s o p r) x ≡ record_of s x
  unfolding record_of
  extended_other x differs =
      let m' = insert o.logical grown_record s.records in
      let same : x.session ≡ s.session
          → current x (find m' x.logical) ≡ current x (find s.records x.logical) =
        λ native. elim (Bool-cases (o.logical == x.logical)) [
          | inr other ↦
              ap (current x) (find-insert_ne s.records o.logical x.logical grown_record other)
          | inl at ↦
              let slot : o.logical ≡ x.logical = (==_iff o.logical x.logical).0 at in
              let found : find s.records x.logical ≡ some r =
                ap (find s.records) (sym slot) ∙ record_of_found s o r here in
              let found' : find m' x.logical ≡ some grown_record =
                ap (find m') (sym slot) ∙ find-insert_self s.records o.logical grown_record in
              elim (Bool-cases (r.live && r.incarnation == x.incarnation)) [
                | inl good ↦
                    let was : record_of s x ≡ ok r =
                      record_of_native s x native ∙ ap (current x) found ∙ rw good refl in
                    absurd (differs (slot_one s x o r r was here (sym slot)))
                | inr old ↦
                    let gone : current x (some grown_record) ≡ refuse expired = rw old refl in
                    let gone' : current x (some r) ≡ refuse expired = rw old refl in
                    ap (current x) found' ∙ gone ∙ sym gone' ∙ sym (ap (current x) found)
              ]
        ] in
      elim (Bool-cases (x.session == s.session)) [
        | inl native ↦ simp native (same ((==_iff x.session s.session).0 native))
        | inr foreign ↦ simp foreign refl
      ]

  extended_frame : (x : ObjectRef) → (x ≡ o) ⊎ (record_of (extended s o p r) x ≡ record_of s x)
  extended_frame x = elim (Bool-cases (ref_eq x o)) [
    | inl same ↦ inl ((ref_eq_iff x o).0 same)
    | inr other ↦ inr (extended_other x (λ e. cc (other, (ref_eq_iff x o).1 e)))
  ]

  -- With the journal off, room in the quota and a store that goes on, where no record is among its own
  -- superclasses: giving a live record `o` a live superclass `p` ends. It succeeds only where `o` is
  -- not `p` nor among the superclasses of `p`, at any distance; then `p` is the last superclass of
  -- `o`, every other record reads as before, and no record is among its own superclasses. It is
  -- refused as `inheritance_cycle` only where `o` is `p` or among them. Otherwise it fails with the
  -- error that the read of a superclass of `p` gives. A call that fails changes nothing.
  pub add_prototype-IsAcyclic :
      {q : Record}
      → record_of s p ≡ ok q
      → s.terminal ≡ false
      → s.journalling ≡ false
      → is_quota_full s ≡ false
      → IsAcyclic s
      → Adds s o p r (add_prototype o p s)
  unfolding add_prototype journal_container append_prototype edit
  add_prototype-IsAcyclic there active quiet room acyclic =
      let ready = active_lem s active in
      let found = record_of_found s o r here in
      let Goal : Look Unit × Store → Type 0 = Adds s o p r in
      elim (Bool-cases (ref_eq o p)) [
        | inl same ↦
            let ran : add_prototype o p s ≡ (err (returned inheritance_cycle), s) =
              simp (quiet, ready, here, there, same, ◌>>=◌, ◌>>◌) refl in
            subst Goal (sym ran) (closes (inl ((ref_eq_iff o p).0 same)))
        | inr differ ↦ elim (answer_of s p o there) [
          | inl (is, below) ↦
              let ran : add_prototype o p s ≡ (err (returned inheritance_cycle), s) =
                simp (quiet, ready, here, there, differ, is, ◌>>=◌, ◌>>◌) refl in
              subst Goal (sym ran) (closes (inr below))
          | inr (inl (is_not, apart)) ↦
              let ran : add_prototype o p s ≡ (ok tt, extended s o p r) =
                simp (quiet, ready, here, there, differ, is_not, room, found, edit, ◌>>=◌, ◌>>◌)
                  refl in
              let no_cycle : ¬ ((o ≡ p) ⊎ Descends s o p) =
                λ c. elim c [ inl e ↦ cc (differ, (ref_eq_iff o p).1 e) | inr d ↦ apart d ] in
              subst Goal (sym ran) (
                added no_cycle extended_self extended_frame
                  (extended-IsAcyclic acyclic differ apart))
          | inr (inr (f, failed, x, above, gone, in_time)) ↦
              let ran : add_prototype o p s ≡ (err f, s) =
                simp (quiet, ready, here, there, differ, failed, ◌>>=◌, ◌>>◌) refl in
              subst Goal (sym ran) (broken above gone in_time)
        ]
      ]
