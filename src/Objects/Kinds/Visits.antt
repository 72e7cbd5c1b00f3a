-- ===== src/Objects/Kinds/Visits.antt =====
-- objects.rs, `descends`: superclasses at some distance, and the `for` over those of one record.
use zebulon_lang.Prelude.{
  err, Bool-cases, Result-cases, ◌∷◌, arith, ◌∙◌, sym, ◌||◌, ap, List, ◌≡◌, none, some, true, false,
  ok, [], inl, inr,
}
use zebulon_lang.Prelude.Results.{◌>>=◌}
use zebulon_lang.Errors.{ref_eq_self, mem, ref_eq, ObjectRef, ref_eq_iff}
use zebulon_lang.Objects.{Fault, Record, Store}
use zebulon_lang.Objects.Access.{record_of, visit}

-- A superclass, or a superclass of a superclass, through live records.
pub data Descends (s : Store) (a : ObjectRef) : ObjectRef → Type 0 where
  direct :
      {o : ObjectRef} {r : Record}
      → record_of s o ≡ ok r
      → mem r.prototypes a ≡ true
      → Descends s a o
  through :
      {o p : ObjectRef} {r : Record}
      → record_of s o ≡ ok r
      → mem r.prototypes p ≡ true
      → Descends s a p
      → Descends s a o

pub Descends-trans :
    {s : Store} {a b c : ObjectRef} → Descends s a b → Descends s b c → Descends s a c
Descends-trans d (direct here above) = through here above d
Descends-trans d (through here above e) = through here above (Descends-trans d e)

-- Every superclass of `o` is in `seen`, and none is `a`.
abbrev pub IsClosed : Store → ObjectRef → List ObjectRef → ObjectRef → Type 0
IsClosed s a seen o =
    (r : Record)
    → record_of s o ≡ ok r
    → (p : ObjectRef) → mem r.prototypes p ≡ true
    → (mem seen p ≡ true) × (ref_eq p a ≡ false)

-- What a `for` over superclasses leaves: more seen, all of the new ones pending.
pub record IsVisited (a : ObjectRef) (ps pending seen pending' seen' : List ObjectRef)
    : Type 0 where
  pub keeps : (x : ObjectRef) → mem seen x ≡ true → mem seen' x ≡ true
  pub still : (x : ObjectRef) → mem pending x ≡ true → mem pending' x ≡ true
  pub queued : (x : ObjectRef) → mem seen' x ≡ true → (mem seen x || mem pending' x) ≡ true
  pub covers : (x : ObjectRef) → mem ps x ≡ true → (mem seen' x ≡ true) × (ref_eq x a ≡ false)
  pub new_are : (x : ObjectRef) → mem pending' x ≡ true → (mem pending x || mem ps x) ≡ true

pub visit_lem :
    (s : Store) (a : ObjectRef) (ps pending seen pending' seen' : List ObjectRef)
    → visit s a ps pending seen ≡ ok (some (pending', seen'))
    → IsVisited a ps pending seen pending' seen'
unfolding visit mem
visit_lem s a [] pending seen pending' seen' e =
    let p : pending ≡ pending' = cc e in
    let q : seen ≡ seen' = cc e in
    record {
      keeps = λ x h. ap (λ l. mem l x) (sym q) ∙ h;
      still = λ x h. ap (λ l. mem l x) (sym p) ∙ h;
      queued = λ x h. ground (arith, ap (λ (l : List ObjectRef). mem l x) q);
      covers = λ x h. absurd (cc h);
      new_are = λ x h. ground (arith, ap (λ (l : List ObjectRef). mem l x) p);
    }
visit_lem s a (o ∷ ps) pending seen pending' seen' e = elim (Result-cases (record_of s o)) [
  | inl (f, gone) ↦ absurd (cc (simp (gone, ◌>>=◌) at e))
  | inr (r, here) ↦ elim (Bool-cases (ref_eq o a)) [
    | inl target ↦ absurd (cc (simp (here, target, ◌>>=◌) at e))
    | inr other ↦
        let is : (x : ObjectRef) → ref_eq o x ≡ true → ref_eq x a ≡ false =
          λ x h. ap (λ y. ref_eq y a) (sym ((ref_eq_iff o x).0 h)) ∙ other in
        elim (Bool-cases (mem seen o)) [
          | inl known ↦
              let v =
                visit_lem s a ps pending seen pending' seen'
                  (simp (here, other, known, ◌>>=◌) at e) in
              let at_o : (x : ObjectRef) → ref_eq o x ≡ true → mem seen x ≡ true =
                λ x h. ap (mem seen) (sym ((ref_eq_iff o x).0 h)) ∙ known in
              record {
                keeps = v.keeps;
                still = v.still;
                queued = v.queued;
                covers = λ x h. elim (Bool-cases (ref_eq o x)) [
                  | inl same ↦ (v.keeps x (at_o x same), is x same)
                  | inr not_o ↦ v.covers x (ground (arith, not_o, h))
                ];
                new_are = λ x h. ground (arith, v.new_are x h);
              }
          | inr new ↦
              let v =
                visit_lem s a ps (o ∷ pending) (o ∷ seen) pending' seen'
                  (simp (here, other, new, ◌>>=◌) at e) in
              record {
                keeps = λ x h. v.keeps x (ground (arith, h));
                still = λ x h. v.still x (ground (arith, h));
                queued = λ x h. ground (arith, v.queued x h, v.still x);
                covers = λ x h. elim (Bool-cases (ref_eq o x)) [
                  | inl same ↦ (v.keeps x (ground (arith, same)), is x same)
                  | inr not_o ↦ v.covers x (ground (arith, not_o, h))
                ];
                new_are = λ x h. ground (arith, v.new_are x h);
              }
        ]
  ]
]

pub visit-none :
    (s : Store) (a : ObjectRef) (ps pending seen : List ObjectRef)
    → visit s a ps pending seen ≡ ok none
    → mem ps a ≡ true
unfolding visit mem
visit-none s a [] pending seen e = absurd (cc e)
visit-none s a (o ∷ ps) pending seen e = elim (Result-cases (record_of s o)) [
  | inl (f, gone) ↦ absurd (cc (simp (gone, ◌>>=◌) at e))
  | inr (r, here) ↦ elim (Bool-cases (ref_eq o a)) [
    | inl target ↦ ground (arith, target)
    | inr other ↦
        let rest = visit-none s a ps _ _ (simp (here, other, ◌>>=◌) at e) in ground (arith, rest)
  ]
]

pub visit-err :
    (s : Store) (a : ObjectRef) (ps pending seen : List ObjectRef) (f : Fault)
    → visit s a ps pending seen ≡ err f
    → (p : ObjectRef) × (mem ps p ≡ true) × (record_of s p ≡ err f)
unfolding visit mem
visit-err s a [] pending seen f e = absurd (cc e)
visit-err s a (o ∷ ps) pending seen f e = elim (Result-cases (record_of s o)) [
  | inl (g, gone) ↦
      let is : g ≡ f = cc (simp (gone, ◌>>=◌) at e) in
      (o, ground (arith, ref_eq_self o), gone ∙ ap err is)
  | inr (r, here) ↦ elim (Bool-cases (ref_eq o a)) [
    | inl target ↦ absurd (cc (simp (here, target, ◌>>=◌) at e))
    | inr other ↦
        let (p, above, gone) = visit-err s a ps _ _ f (simp (here, other, ◌>>=◌) at e) in
        (p, ground (arith, above), gone)
  ]
]
