-- ===== src/Objects/Graft.antt =====
-- objects.rs, `adopt` on forests: a tree goes below a node of the others.
pub mod Records
use zebulon_lang.Prelude.Maps.{Map}
use zebulon_lang.Prelude.{
  ◌∷◌, ap, ◌&&◌, ==_iff, arith, ==_self, ◌||◌, ◌∙◌, Bool-cases, ◌++◌, Option, ℕ, Bool,
  if◌then◌else◌, ◌≡◌, refl, true, false, inl, inr,
}
use zebulon_lang.Errors.{ref_eq, ObjectRef, ref_eq_iff}
use zebulon_lang.Objects.{Record}
use zebulon_lang.Objects.Ownership.{IsNative}
use zebulon_lang.Objects.Forest.{Forest, empty, plant, roots, has, IsApart, Holds}

-- Whether a reference is a node.
unfoldable pub occurs : Forest → ObjectRef → Bool
occurs empty x = false
occurs (plant o kids beside) x = ref_eq o x || occurs kids x || occurs beside x

-- Two forests side by side.
unfoldable pub beyond : Forest → Forest → Forest
beyond empty t = t
beyond (plant o kids beside) t = plant o kids (beyond beside t)

-- The trees `t` below the node `p`, after what it owns already.
unfoldable pub graft : ObjectRef → Forest → Forest → Forest
unfolding beyond
graft p t empty = empty
graft p t (plant o kids beside) =
    let below = graft p t kids in
    let next = graft p t beside in
    if ref_eq o p then plant o (beyond kids t) beside else plant o below next

pub roots-graft : (p : ObjectRef) (t f : Forest) → roots (graft p t f) ≡ roots f
unfolding graft
roots-graft p t empty = refl
roots-graft p t (plant o kids beside) = elim (Bool-cases (ref_eq o p)) [
  | inl here ↦ rw here refl
  | inr other ↦ rw other (ap (λ rs. o ∷ rs) (roots-graft p t beside))
]

pub roots-beyond : (f t : Forest) → roots (beyond f t) ≡ roots f ++ roots t
unfolding beyond
roots-beyond empty t = refl
roots-beyond (plant o kids beside) t = ap (λ rs. o ∷ rs) (roots-beyond beside t)

has-beyond : (f t : Forest) (l : ℕ) → has (beyond f t) l ≡ (has f l || has t l)
unfolding beyond has
has-beyond empty t l = refl
has-beyond (plant o kids beside) t l = ground (arith, has-beyond beside t l)

pub occurs-has : (f : Forest) (x : ObjectRef) → occurs f x ≡ true → has f x.logical ≡ true
unfolding occurs has
occurs-has empty x e = absurd (cc e)
occurs-has (plant o kids beside) x e = ground (
  arith,
  occurs-has kids x,
  occurs-has beside x,
  ref_eq_iff o x,
  ==_iff o.logical x.logical,
  λ (same : o ≡ x). ap (λ (r : ObjectRef). r.logical) same,
)

pub has-graft :
    (p : ObjectRef) (t f : Forest)
    → IsApart f
    → (l : ℕ) → has (graft p t f) l ≡ (has f l || (occurs f p && has t l))
unfolding graft has occurs IsApart
has-graft p t empty a l = refl
has-graft p t (plant o kids beside) (o∉kids, o∉beside, disjoint, apart_kids, apart_beside) l =
    elim (Bool-cases (ref_eq o p)) [
      | inl here ↦ rw here (ground (arith, has-beyond kids t l))
      | inr other ↦
          rw other
            (ground (arith, has-graft p t kids apart_kids l, has-graft p t beside apart_beside l))
    ]

beyond-IsApart :
    (f t : Forest)
    → IsApart f
    → IsApart t
    → ((l : ℕ) → has f l ≡ true → has t l ≡ false)
    → IsApart (beyond f t)
unfolding beyond has IsApart
beyond-IsApart empty t a b apart = b
beyond-IsApart (plant o kids beside) t (o∉kids, o∉beside, disjoint, apart_kids, apart_beside) b
      apart =
    (
      o∉kids,
      has-beyond beside t o.logical ∙ ground (arith, o∉beside, apart o.logical, ==_self o.logical),
      (λ l e. has-beyond beside t l ∙ ground (arith, disjoint l e, apart l)),
      apart_kids,
      beyond-IsApart beside t apart_beside b (λ l e. apart l (ground arith)),
    )

pub graft-IsApart :
    (p : ObjectRef) (t f : Forest)
    → IsApart f
    → IsApart t
    → ((l : ℕ) → has f l ≡ true → has t l ≡ false)
    → IsApart (graft p t f)
unfolding graft has IsApart
graft-IsApart p t empty a b apart = tt
graft-IsApart p t (plant o kids beside) (o∉kids, o∉beside, disjoint, apart_kids, apart_beside) b
      apart =
    let o∉t : has t o.logical ≡ false = apart o.logical (rw (==_self o.logical) refl) in
    elim (Bool-cases (ref_eq o p)) [
      | inl here ↦ rw here (
        has-beyond kids t o.logical ∙ ground arith,
        o∉beside,
        (λ l e. elim (Bool-cases (has beside l)) [
          | inr none_there ↦ none_there
          | inl there ↦
              absurd (cc (disjoint l (ground (arith, has-beyond kids t l, apart l)), there))
        ]),
        beyond-IsApart kids t apart_kids b (λ l e. apart l (ground arith)),
        apart_beside,
      )
      | inr other ↦ rw other (
        has-graft p t kids apart_kids o.logical ∙ ground arith,
        has-graft p t beside apart_beside o.logical ∙ ground arith,
        (λ l e.
            has-graft p t beside apart_beside l
            ∙ ground (
              arith,
              has-graft p t kids apart_kids l,
              disjoint l,
              disjoint p.logical,
              apart l,
              occurs-has kids p,
              occurs-has beside p,
            )),
        graft-IsApart p t kids apart_kids b (λ l e. apart l (ground arith)),
        graft-IsApart p t beside apart_beside b (λ l e. apart l (ground arith)),
      )
    ]

beyond-IsNative :
    (session : ℕ) (f t : Forest)
    → IsNative session f
    → IsNative session t
    → IsNative session (beyond f t)
unfolding beyond IsNative
beyond-IsNative session empty t a b = b
beyond-IsNative session (plant o kids beside) t (here, below, next) b =
    (here, below, beyond-IsNative session beside t next b)

pub graft-IsNative :
    (session : ℕ) (p : ObjectRef) (t f : Forest)
    → IsNative session f
    → IsNative session t
    → IsNative session (graft p t f)
unfolding graft IsNative
graft-IsNative session p t empty a b = tt
graft-IsNative session p t (plant o kids beside) (here, below, next) b =
    elim (Bool-cases (ref_eq o p)) [
      | inl same ↦ rw same (here, beyond-IsNative session kids t below b, next)
      | inr other ↦
          rw other (
            here,
            graft-IsNative session p t kids below b,
            graft-IsNative session p t beside next b,
          )
    ]

pub beyond-Holds :
    (m : Map Record) (parent : Option ObjectRef) (f t : Forest)
    → Holds m parent f
    → Holds m parent t
    → Holds m parent (beyond f t)
unfolding beyond Holds
beyond-Holds m parent empty t h g = g
beyond-Holds m parent (plant o kids beside) t (node, below, next) g =
    (node, below, beyond-Holds m parent beside t next g)
