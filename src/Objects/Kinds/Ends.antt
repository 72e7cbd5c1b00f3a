-- ===== src/Objects/Kinds/Ends.antt =====
-- objects.rs, `descends`: the search ends on its fuel, since no record is met twice.
use zebulon_lang.Prelude.Maps.{find-remove_ne, remove, length-remove_present, find, Map}
use zebulon_lang.Prelude.{
  sym, ◌&&◌, subst, Option-cases, ◌<◌, arith, ◌∙◌, ==_iff, ◌≤◌, ◌||◌, ◌==◌, Result-cases, ◌+◌,
  length, Bool-cases, Bool, ap, ◌∷◌, ◌≡◌, ◌≢◌, ℕ, List, refl, zero, some, false, ok, err, [], inl,
  inr, suc,
}
use zebulon_lang.Prelude.Results.{◌>>=◌}
use zebulon_lang.Errors.{mem, ref_eq, ObjectRef, ref_eq_iff, reference_ext}
use zebulon_lang.Objects.{Record, Store, out_of_fuel}
use zebulon_lang.Objects.Access.{record_of, visit, descends_loop}
use zebulon_lang.Objects.Ages.Writes.{record_of_found}

-- References to live records, no two alike.
unfoldable pub AreLive : Store → List ObjectRef → Type 0
AreLive s [] = Unit
AreLive s (x ∷ xs) = (mem xs x ≡ false) × ((r : Record) × (record_of s x ≡ ok r)) × AreLive s xs

abbrev slots : List ObjectRef → ℕ → Bool
slots [] l = false
slots (x ∷ xs) l = x.logical == l || slots xs l

-- A reference that reads a record is of the session and as old as the record.
pub record_of_age :
    (s : Store) (o : ObjectRef) (r : Record)
    → record_of s o ≡ ok r
    → (o.session ≡ s.session) × (r.incarnation ≡ o.incarnation)
unfolding record_of
record_of_age s o r e = elim (Bool-cases (o.session == s.session)) [
  | inr foreign ↦ absurd (cc (rw (foreign, record_of) at e))
  | inl native ↦ elim (Option-cases (find s.records o.logical)) [
    | inl gone ↦ absurd (cc (rw (native, gone, record_of) at e))
    | inr (q, here) ↦ elim (Bool-cases (q.live && q.incarnation == o.incarnation)) [
      | inr old ↦ absurd (cc (rw (native, here, old, record_of) at e))
      | inl same ↦
          let is : q ≡ r = cc (rw (native, here, same, record_of) at e) in
          (
            (==_iff o.session s.session).0 native,
            ap (λ (x : Record). x.incarnation) (sym is)
                ∙ (==_iff q.incarnation o.incarnation).0 (ground arith),
          )
    ]
  ]
]

-- Live references in one slot are one reference.
pub slot_one :
    (s : Store) (x y : ObjectRef) (r q : Record)
    → record_of s x ≡ ok r
    → record_of s y ≡ ok q
    → x.logical ≡ y.logical
    → x ≡ y
slot_one s x y r q here there same =
    let (nx, ax) = record_of_age s x r here in
    let (ny, ay) = record_of_age s y q there in
    let is : r ≡ q =
      cc (record_of_found s x r here, record_of_found s y q there, ap (find s.records) same) in
    reference_ext x y (nx ∙ sym ny) same (sym ax ∙ ap (λ (z : Record). z.incarnation) is ∙ ay)

slots_live :
    (s : Store) (x : ObjectRef) (r : Record) (xs : List ObjectRef)
    → record_of s x ≡ ok r
    → AreLive s xs
    → mem xs x ≡ false
    → slots xs x.logical ≡ false
unfolding AreLive mem
slots_live s x r [] here live new = refl
slots_live s x r (y ∷ ys) here (_, (q, there), live) new =
    elim (Bool-cases (y.logical == x.logical)) [
      | inl at ↦
          let not_y : ref_eq y x ≡ false = ground (arith, new) in
          let is : y ≡ x = slot_one s y x q r there here ((==_iff y.logical x.logical).0 at) in
          absurd (cc (not_y, (ref_eq_iff y x).1 is))
      | inr other ↦ rw other (slots_live s x r ys here live (ground arith))
    ]

-- There are no more of them than records.
live_room :
    (s : Store) (xs : List ObjectRef)
    → AreLive s xs
    → (m : Map Record) × (length m + length xs ≤ length s.records)
      × ((l : ℕ) → slots xs l ≡ false → find m l ≡ find s.records l)
unfolding AreLive
live_room s [] live = (s.records, omega arith, λ l e. refl)
live_room s (x ∷ xs) (new, (r, here), live) =
    let (m, fits, same) = live_room s xs live in
    let found : find m x.logical ≡ some r =
      same x.logical (slots_live s x r xs here live new) ∙ record_of_found s x r here in
    let less = length-remove_present m x.logical found in
    (
      remove x.logical m,
      omega (arith, fits, less),
      λ l e. find-remove_ne m x.logical l (ground arith) ∙ same l (ground arith),
    )

-- A `for` over superclasses queues as many as it adds to the seen ones, which stay live.
visit_sizes :
    (s : Store) (a : ObjectRef) (ps pending seen pending' seen' : List ObjectRef)
    → visit s a ps pending seen ≡ ok (some (pending', seen'))
    → AreLive s seen
    → (length pending' + length seen ≡ length pending + length seen') × AreLive s seen'
unfolding visit AreLive
visit_sizes s a [] pending seen pending' seen' e live =
    let p : pending ≡ pending' = cc e in
    let q : seen ≡ seen' = cc e in
    (
      omega
          (arith, ap (λ (l : List ObjectRef). length l) p, ap (λ (l : List ObjectRef). length l) q),
      subst (AreLive s) q live,
    )
visit_sizes s a (o ∷ ps) pending seen pending' seen' e live = elim (Result-cases (record_of s o)) [
  | inl (f, gone) ↦ absurd (cc (simp (gone, ◌>>=◌) at e))
  | inr (r, here) ↦ elim (Bool-cases (ref_eq o a)) [
    | inl target ↦ absurd (cc (simp (here, target, ◌>>=◌) at e))
    | inr other ↦ elim (Bool-cases (mem seen o)) [
      | inl known ↦
          visit_sizes s a ps pending seen pending' seen' (simp (here, other, known, ◌>>=◌) at e)
            live
      | inr new ↦
          let (sizes, live') =
            visit_sizes s a ps (o ∷ pending) (o ∷ seen) pending' seen'
              (simp (here, other, new, ◌>>=◌) at e) (new, (r, here), live) in
          (omega (arith, sizes), live')
    ]
  ]
]

record_of_fuel : (s : Store) (o : ObjectRef) → record_of s o ≢ err out_of_fuel
unfolding record_of
record_of_fuel s o e = elim (Bool-cases (o.session == s.session)) [
  | inr foreign ↦ cc (rw (foreign, record_of) at e)
  | inl native ↦ elim (Option-cases (find s.records o.logical)) [
    | inl gone ↦ cc (rw (native, gone, record_of) at e)
    | inr (q, here) ↦ elim (Bool-cases (q.live && q.incarnation == o.incarnation)) [
      | inr old ↦ cc (rw (native, here, old, record_of) at e)
      | inl same ↦ cc (rw (native, here, same, record_of) at e)
    ]
  ]
]

visit_fuel :
    (s : Store) (a : ObjectRef) (ps pending seen : List ObjectRef)
    → visit s a ps pending seen ≢ err out_of_fuel
unfolding visit
visit_fuel s a [] pending seen e = cc e
visit_fuel s a (o ∷ ps) pending seen e = elim (Result-cases (record_of s o)) [
  | inl (f, gone) ↦
      let is : f ≡ out_of_fuel = cc (simp (gone, ◌>>=◌) at e) in
      record_of_fuel s o (gone ∙ ap err is)
  | inr (r, here) ↦ elim (Bool-cases (ref_eq o a)) [
    | inl target ↦ cc (simp (here, target, ◌>>=◌) at e)
    | inr other ↦ visit_fuel s a ps _ _ (simp (here, other, ◌>>=◌) at e)
  ]
]

pub loop_fuel :
    (s : Store) (a : ObjectRef) (n : ℕ) (pending seen : List ObjectRef)
    → AreLive s seen
    → length s.records + length pending < n + length seen
    → descends_loop n s a pending seen ≢ err out_of_fuel
unfolding descends_loop
loop_fuel s a zero pending seen live enough e =
    let (m, fits, _) = live_room s seen live in absurd (omega (arith, fits, enough))
loop_fuel s a (suc n) [] seen live enough e = cc e
loop_fuel s a (suc n) (o ∷ pending) seen live enough e = elim (Result-cases (record_of s o)) [
  | inl (f, gone) ↦
      let is : f ≡ out_of_fuel = cc (simp (gone, ◌>>=◌) at e) in
      record_of_fuel s o (gone ∙ ap err is)
  | inr (r, here) ↦ elim (Result-cases (visit s a r.prototypes pending seen)) [
    | inl (f, failed) ↦
        let is : f ≡ out_of_fuel = cc (simp (here, failed, ◌>>=◌) at e) in
        visit_fuel s a r.prototypes pending seen (failed ∙ ap err is)
    | inr (next, ran) ↦ elim (Option-cases next) [
      | inl stop ↦ cc (simp (here, ran, stop, ◌>>=◌) at e)
      | inr ((pending', seen'), more) ↦
          let (sizes, live') =
            visit_sizes s a r.prototypes pending seen pending' seen' (ran ∙ ap ok more) live in
          loop_fuel s a n pending' seen' live' (omega (arith, sizes, enough))
            (simp (here, ran, more, ◌>>=◌) at e)
    ]
  ]
]
