-- ===== src/Objects/Kinds.antt =====
-- objects.rs, `descends`: the search over the superclasses decides whether a class is among them.
pub mod Ends
pub mod Visits
pub use zebulon_lang.Objects.Kinds.Visits.{Descends, direct, through, Descends-trans}
use zebulon_lang.Objects.Kinds.Visits.{IsVisited, IsClosed, visit_lem, visit-none, visit-err}
use zebulon_lang.Objects.Kinds.Ends.{loop_fuel, AreLive}
use zebulon_lang.Prelude.{
  refl, subst, length, err, ◌≢◌, ◌⊎◌, Option-cases, Bool-cases, Result-cases, ℕ, ◌∷◌, arith, ◌∙◌,
  sym, ◌||◌, ap, List, ◌≡◌, Bool, zero, none, some, true, false, ok, [], inl, inr, suc,
}
use zebulon_lang.Prelude.Results.{◌>>=◌}
use zebulon_lang.Errors.{mem, ref_eq, ObjectRef, ref_eq_iff, ref_eq_self}
use zebulon_lang.Objects.{Fault, out_of_fuel, Record, Store, Look}
use zebulon_lang.Objects.Access.{descends, record_of, visit, descends_loop}

module _ (s : Store) (a origin : ObjectRef) where
  -- A yes is right: whatever is pending is above the origin.
  loop_yes :
      (n : ℕ) (pending seen : List ObjectRef)
      → ((x : ObjectRef) → mem pending x ≡ true → Descends s a x → Descends s a origin)
      → descends_loop n s a pending seen ≡ ok true
      → Descends s a origin
  unfolding descends_loop mem
  loop_yes zero pending seen up e = absurd (cc e)
  loop_yes (suc n) [] seen up e = absurd (cc e)
  loop_yes (suc n) (o ∷ pending) seen up e = elim (Result-cases (record_of s o)) [
    | inl (f, gone) ↦ absurd (cc (simp (gone, ◌>>=◌) at e))
    | inr (r, here) ↦ elim (Result-cases (visit s a r.prototypes pending seen)) [
      | inl (f, failed) ↦ absurd (cc (simp (here, failed, ◌>>=◌) at e))
      | inr (next, ran) ↦ elim (Option-cases next) [
        | inl stop ↦
            up o (ground (arith, ref_eq_self o))
              (direct here (visit-none s a r.prototypes pending seen (ran ∙ ap ok stop)))
        | inr ((pending', seen'), more) ↦
            let v = visit_lem s a r.prototypes pending seen pending' seen' (ran ∙ ap ok more) in
            loop_yes n pending' seen'
              (λ x h d. elim (Bool-cases (mem r.prototypes x)) [
                | inl above ↦ up o (ground (arith, ref_eq_self o)) (through here above d)
                | inr not_above ↦ up x (ground (arith, v.new_are x h)) d
              ])
              (simp (here, ran, more, ◌>>=◌) at e)
      ]
    ]
  ]

module _ (s : Store) (a origin : ObjectRef) {first : Record}
    (live : record_of s origin ≡ ok first) where
  abbrev IsAbove : ObjectRef → Type 0
  IsAbove x = (x ≡ origin) ⊎ Descends s x origin

  above_of :
      {x p : ObjectRef} {r : Record}
      → record_of s x ≡ ok r
      → mem r.prototypes p ≡ true
      → IsAbove x
      → Descends s p origin
  above_of here above (inl at) = subst (Descends s _) at (direct here above)
  above_of here above (inr d) = Descends-trans (direct here above) d

  -- A failure is that of the read of a superclass.
  loop-err :
      (n : ℕ) (pending seen : List ObjectRef) (f : Fault)
      → ((x : ObjectRef) → mem pending x ≡ true → IsAbove x)
      → f ≢ out_of_fuel
      → descends_loop n s a pending seen ≡ err f
      → (p : ObjectRef) × Descends s p origin × (record_of s p ≡ err f)
  unfolding descends_loop mem
  loop-err zero pending seen f up timely e = absurd (timely (cc e))
  loop-err (suc n) [] seen f up timely e = absurd (cc e)
  loop-err (suc n) (o ∷ pending) seen f up timely e = elim (Result-cases (record_of s o)) [
    | inl (g, gone) ↦
        let is : g ≡ f = cc (simp (gone, ◌>>=◌) at e) in
        elim (up o (ground (arith, ref_eq_self o))) [
          | inl at ↦ absurd (cc (gone, live, ap (record_of s) at))
          | inr d ↦ (o, d, gone ∙ ap err is)
        ]
    | inr (r, here) ↦
        let here_up = up o (ground (arith, ref_eq_self o)) in
        elim (Result-cases (visit s a r.prototypes pending seen)) [
          | inl (g, failed) ↦
              let is : g ≡ f = cc (simp (here, failed, ◌>>=◌) at e) in
              let (p, above, gone) =
                visit-err s a r.prototypes pending seen f (failed ∙ ap err is) in
              (p, above_of here above here_up, gone)
          | inr (next, ran) ↦ elim (Option-cases next) [
            | inl stop ↦ absurd (cc (simp (here, ran, stop, ◌>>=◌) at e))
            | inr ((pending', seen'), more) ↦
                let v = visit_lem s a r.prototypes pending seen pending' seen' (ran ∙ ap ok more) in
                loop-err n pending' seen' f
                  (λ x h. elim (Bool-cases (mem r.prototypes x)) [
                    | inl above ↦ inr (above_of here above here_up)
                    | inr not_above ↦ up x (ground (arith, v.new_are x h))
                  ])
                  timely (simp (here, ran, more, ◌>>=◌) at e)
          ]
        ]
  ]

module _ (s : Store) (a : ObjectRef) where
  -- What is seen is pending or done.
  IsDone : List ObjectRef → List ObjectRef → Type 0
  IsDone pending seen =
      (x : ObjectRef) → mem seen x ≡ true → (mem pending x ≡ true) ⊎ IsClosed s a seen x

  closed_none :
      (seen : List ObjectRef)
      → ((x : ObjectRef) → mem seen x ≡ true → IsClosed s a seen x)
      → {x : ObjectRef} → mem seen x ≡ true
      → Descends s a x
      → ⊥
  closed_none seen done h (direct {o} {r} here above) =
      absurd (cc ((done o h r here a above).1, ref_eq_self a))
  closed_none seen done h (through {o} {p} {r} here above d) =
      closed_none seen done (done o h r here p above).0 d

  IsDone-visit :
      (o : ObjectRef) (r : Record) (pending seen pending' seen' : List ObjectRef)
      → record_of s o ≡ ok r
      → IsVisited a r.prototypes pending seen pending' seen'
      → IsDone (o ∷ pending) seen
      → IsDone pending' seen'
  unfolding IsDone mem
  IsDone-visit o r pending seen pending' seen' here v done x h =
      elim (Bool-cases (mem pending' x)) [
        | inl queued ↦ inl queued
        | inr idle ↦
            let old : mem seen x ≡ true = ground (arith, v.queued x h) in
            elim (done x old) [
              | inr closed ↦ inr (λ q at p above.
                  let (known, other) = closed q at p above in (v.keeps p known, other))
              | inl waits ↦
                  let same : o ≡ x = (ref_eq_iff o x).0 (ground (arith, waits, idle, v.still x)) in
                  inr (λ q at p above.
                    let is : r ≡ q = cc (here, ap (record_of s) same, at) in
                    v.covers p (ap (λ (z : Record). mem z.prototypes p) is ∙ above))
            ]
      ]

  loop_no :
      (n : ℕ) (pending seen : List ObjectRef)
      → IsDone pending seen
      → descends_loop n s a pending seen ≡ ok false
      → (x : ObjectRef) → mem seen x ≡ true
      → Descends s a x
      → ⊥
  unfolding descends_loop IsDone mem
  loop_no zero pending seen done e x h d = cc e
  loop_no (suc n) [] seen done e x h d =
      closed_none seen
        (λ y k. elim (done y k) [ inl waits ↦ absurd (cc waits) | inr closed ↦ closed ]) h d
  loop_no (suc n) (o ∷ pending) seen done e x h d = elim (Result-cases (record_of s o)) [
    | inl (f, gone) ↦ cc (simp (gone, ◌>>=◌) at e)
    | inr (r, here) ↦ elim (Result-cases (visit s a r.prototypes pending seen)) [
      | inl (f, failed) ↦ cc (simp (here, failed, ◌>>=◌) at e)
      | inr (next, ran) ↦ elim (Option-cases next) [
        | inl stop ↦ cc (simp (here, ran, stop, ◌>>=◌) at e)
        | inr ((pending', seen'), more) ↦
            let v = visit_lem s a r.prototypes pending seen pending' seen' (ran ∙ ap ok more) in
            loop_no n pending' seen' (IsDone-visit o r pending seen pending' seen' here v done)
              (simp (here, ran, more, ◌>>=◌) at e) x (v.keeps x h) d
      ]
    ]
  ]

-- Whether an answer of the search for `a` over the superclasses of `o` is the right one: yes where `a`
-- is a superclass of it at some distance, no where it is not, and a failure only where the read of a
-- superclass at some distance fails in that way.
pub data Decides (s : Store) (o a : ObjectRef) : Look Bool → Type 0 where
  is_above : Descends s a o → Decides s o a (ok true)
  not_above : ¬ Descends s a o → Decides s o a (ok false)
  broken :
      {f : Fault} {p : ObjectRef}
      → Descends s p o
      → record_of s p ≡ err f
      → f ≢ out_of_fuel
      → Decides s o a (err f)

-- For a live record the search over its superclasses ends on its fuel. It answers yes, and the class is
-- a superclass of it, or of one of its superclasses, and so on; or it answers no, and it is not; or it
-- fails with the error that the read of one of these superclasses gives.
pub descends-Descends :
    (s : Store) (o a : ObjectRef) {r : Record}
    → record_of s o ≡ ok r
    → Decides s o a (descends s o a)
unfolding descends IsDone mem AreLive
descends-Descends s o a {r} here =
    let n = suc (length s.records) in
    let self : (x : ObjectRef) → ref_eq o x || false ≡ true → o ≡ x =
      λ x h. (ref_eq_iff o x).0 (ground arith) in
    elim (Result-cases (descends_loop n s a (o ∷ []) (o ∷ []))) [
      | inl (f, failed) ↦
          let timely : f ≢ out_of_fuel = λ e.
            loop_fuel s a n (o ∷ []) (o ∷ []) (refl, (r, here), tt) (omega arith)
              (failed ∙ ap err e) in
          let (p, above, gone) =
            loop-err s a o here n (o ∷ []) (o ∷ []) f (λ x h. inl (sym (self x h))) timely failed in
          subst (Decides s o a) (sym failed) (broken above gone timely)
      | inr (true, yes_it) ↦ subst (Decides s o a) (sym yes_it) (
          is_above (
            loop_yes s a o n (o ∷ []) (o ∷ []) (λ x h d. subst (Descends s a) (sym (self x h)) d)
              yes_it))
      | inr (false, not_it) ↦ subst (Decides s o a) (sym not_it) (
          not_above λ d.
            loop_no s a n (o ∷ []) (o ∷ []) (λ x h. inl h) not_it o (ground (arith, ref_eq_self o))
              d)
    ]
