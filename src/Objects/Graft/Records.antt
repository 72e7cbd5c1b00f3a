-- ===== src/Objects/Graft/Records.antt =====
-- objects.rs, `adopt`: the records of a store spell out the forest with the tree in its new place.
use zebulon_lang.Prelude.Maps.{find, Map}
use zebulon_lang.Prelude.{
  ==_self, subst, ==_iff, arith, ◌∙◌, sym, ap, Bool-cases, ◌==◌, Option, ◌++◌, ◌≡◌, ℕ, refl, some,
  true, false, inl, inr,
}
use zebulon_lang.Errors.{reference_ext, ref_eq, ObjectRef, ref_eq_iff}
use zebulon_lang.Objects.{Record}
use zebulon_lang.Objects.Ownership.{IsNative}
use zebulon_lang.Objects.Forest.{Forest, empty, plant, roots, has, IsApart, Holds, Holds-agree}
use zebulon_lang.Objects.Graft.{graft, roots-graft, roots-beyond, beyond-Holds}

-- The records after the record of `p` got the children of `t` besides its own.
module _ (m m' : Map Record) (session : ℕ) (p : ObjectRef) (t : Forest) (r r' : Record)
    (before : find m p.logical ≡ some r) (after : find m' p.logical ≡ some r')
    (ages : r.incarnation ≡ p.incarnation) (native_p : p.session ≡ session)
    (ages' : r'.incarnation ≡ r.incarnation) (lives' : r'.live ≡ r.live)
    (below' : r'.parent ≡ r.parent) (owns' : r'.children ≡ r.children ++ roots t)
    (held : Holds m' (some p) t) where
  pub graft-Holds :
      (parent : Option ObjectRef) (f : Forest)
      → ((l : ℕ) → has f l ≡ true → (p.logical == l) ≡ false → find m' l ≡ find m l)
      → Holds m parent f
      → IsApart f
      → IsNative session f
      → Holds m' parent (graft p t f)
  unfolding Holds IsApart IsNative has graft
  graft-Holds parent empty agree h a i = tt
  graft-Holds parent (plant o kids beside) agree (node, below, next)
        (o∉kids, o∉beside, disjoint, apart_kids, apart_beside)
        (native, native_kids, native_beside) =
      elim (Bool-cases (ref_eq o p)) [
        | inl same ↦
            let o≡p : o ≡ p = (ref_eq_iff o p).0 same in
            let slot : o.logical ≡ p.logical = ap (λ (x : ObjectRef). x.logical) o≡p in
            let is : node.held ≡ r = cc (node.here, ap (find m) slot, before) in
            let apart_from : (l : ℕ) → (o.logical == l) ≡ false → (p.logical == l) ≡ false =
              λ l e. ap (λ k. k == l) (sym slot) ∙ e in
            rw same (
              record {
                held = r';
                here = ap (find m') slot ∙ after;
                ages = ages' ∙ ap (λ (x : Record). x.incarnation) (sym is) ∙ node.ages;
                lives = lives' ∙ ap (λ (x : Record). x.live) (sym is) ∙ node.lives;
                below = below' ∙ ap (λ (x : Record). x.parent) (sym is) ∙ node.below;
                owns =
                    owns'
                    ∙ ap (λ (x : Record). x.children ++ roots t) (sym is)
                    ∙ ap (λ cs. cs ++ roots t) node.owns
                    ∙ sym (roots-beyond kids t);
              },
              beyond-Holds m' (some o) kids t
                  (Holds-agree m m' (some o) kids
                    (λ l e. agree l (ground arith) (
                      apart_from l (elim (Bool-cases (o.logical == l)) [
                        | inl at ↦
                            absurd (cc (ap (has kids) ((==_iff o.logical l).0 at), o∉kids, e))
                        | inr other ↦ other
                      ])))
                    below)
                  (subst (λ x. Holds m' (some x) t) (sym o≡p) held),
              Holds-agree m m' parent beside
                  (λ l e. agree l (ground arith) (
                    apart_from l (elim (Bool-cases (o.logical == l)) [
                      | inl at ↦
                          absurd (cc (ap (has beside) ((==_iff o.logical l).0 at), o∉beside, e))
                      | inr other ↦ other
                    ])))
                  next,
            )
        | inr other ↦
            let o≠p : (p.logical == o.logical) ≡ false =
              (elim (Bool-cases (p.logical == o.logical)) [
                | inr differs ↦ differs
                | inl at ↦
                    let slot : p.logical ≡ o.logical = (==_iff p.logical o.logical).0 at in
                    let is : node.held ≡ r = cc (node.here, ap (find m) slot, before) in
                    let age : o.incarnation ≡ p.incarnation =
                      sym node.ages ∙ ap (λ (x : Record). x.incarnation) is ∙ ages in
                    let same : ref_eq o p ≡ true =
                      (ref_eq_iff o p).1
                        (reference_ext o p (native ∙ sym native_p) (sym slot) age) in
                    absurd (cc (other, same))
              ]) in
            rw other (
              record {
                held = node.held;
                here = agree o.logical (rw (==_self o.logical) refl) o≠p ∙ node.here;
                ages = node.ages;
                lives = node.lives;
                below = node.below;
                owns = node.owns ∙ sym (roots-graft p t kids);
              },
              graft-Holds (some o) kids (λ l e. agree l (ground arith)) below apart_kids
                  native_kids,
              graft-Holds parent beside (λ l e. agree l (ground arith)) next apart_beside
                  native_beside,
            )
      ]
