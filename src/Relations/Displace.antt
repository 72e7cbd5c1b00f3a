-- ===== src/Relations/Displace.antt =====
-- relations.rs, `set`: what giving up the previous partner of a side does to the rows.
use zebulon_lang.Prelude.{
  ℕ, ◌≤◌, ◌≡◌, refl, ap, ◌∙◌, true, false, not, ◌&&◌, none, some, List, [], ◌∷◌, length, head?,
  arith, ◌==◌, ==_self,
}
use zebulon_lang.Errors.{ObjectRef, handle, ref_eq, ref_eq_iff, IsIssued}
use zebulon_lang.Relations.Table.{Rows, mem, retain_ne, unlink}
use zebulon_lang.Relations.Rows.{IsPaired, holds, holds-unlink, same_handle}

pub alone : (xs : List ObjectRef) (p : ObjectRef) → length xs ≤ 1 → head? xs ≡ some p → xs ≡ p ∷ []
alone [] p h e = cc
alone (x ∷ []) p h e = cc
alone (x ∷ y ∷ xs) p h e = absurd (omega arith)

pub nobody : (xs : List ObjectRef) → head? xs ≡ none → xs ≡ []
nobody [] e = refl
nobody (x ∷ xs) e = cc

pub mem-alone : (p a : ObjectRef) → mem (p ∷ []) a ≡ ref_eq p a
unfolding mem
mem-alone p a = ground arith

pub mem-nil : (a : ObjectRef) → mem [] a ≡ false
unfolding mem
mem-nil a = refl

-- A list of at most one partner, with one of its members.
pub alone_of_mem :
    (xs : List ObjectRef) (p : ObjectRef) → length xs ≤ 1 → mem xs p ≡ true → xs ≡ p ∷ []
unfolding mem
alone_of_mem [] p h e = cc
alone_of_mem (x ∷ []) p h e = ground (arith, ref_eq_iff x p)
alone_of_mem (x ∷ y ∷ xs) p h e = absurd (omega arith)

retain_ne-alone : (p : ObjectRef) → retain_ne p (p ∷ []) ≡ []
unfolding retain_ne
retain_ne-alone p = rw ((ref_eq_iff p p).1 refl) refl

module _ {session : ℕ} {t : Rows} (p : IsPaired session t) {l r : ObjectRef}
    (hl : IsIssued session l) (hr : IsIssued session r) where
  -- The only partner of `r` gives up its row: no row of `r` is left, all others stay.
  module _ (q : ObjectRef) (one : t.reverse (handle r) ≡ q ∷ []) where
    pub previous_left-IsIssued : IsIssued session q
    previous_left-IsIssued =
        p.reverse_issued (handle r) q (rw one (mem-alone q q ∙ (ref_eq_iff q q).1 refl))

    pub holds-without_left :
        (a b : ObjectRef)
        → IsIssued session a
        → IsIssued session b
        → holds (unlink q r t) a b ≡ holds t a b && not (ref_eq r b)
    holds-without_left a b ha hb = ground (
      arith,
      holds-unlink previous_left-IsIssued hr t ha hb,
      ref_eq_iff r b,
      p.mirror a r ha hr ∙ ap (λ xs. mem xs a) one ∙ mem-alone q a,
    )

    pub reverse-without_left : (unlink q r t).reverse (handle r) ≡ []
    unfolding unlink
    reverse-without_left = rw (==_self (handle r), one) (retain_ne-alone q)

    pub forward-without_left :
        holds t l r ≡ false → (unlink q r t).forward (handle l) ≡ t.forward (handle l)
    unfolding unlink
    forward-without_left absent =
        let apart : (handle q == handle l) ≡ false = ground (
          arith,
          same_handle previous_left-IsIssued hl,
          ref_eq_iff q l,
          p.mirror l r hl hr ∙ ap (λ xs. mem xs l) one ∙ mem-alone q l,
        ) in
        rw apart refl

  -- The only partner of `l` gives up its row: no row of `l` is left, all others stay.
  module _ (q : ObjectRef) (one : t.forward (handle l) ≡ q ∷ []) where
    pub previous_right-IsIssued : IsIssued session q
    previous_right-IsIssued =
        p.forward_issued (handle l) q (rw one (mem-alone q q ∙ (ref_eq_iff q q).1 refl))

    pub holds-without_right :
        (a b : ObjectRef)
        → IsIssued session a
        → IsIssued session b
        → holds (unlink l q t) a b ≡ holds t a b && not (ref_eq l a)
    holds-without_right a b ha hb = ground (
      arith,
      holds-unlink hl previous_right-IsIssued t ha hb,
      ref_eq_iff l a,
      ap (λ xs. mem xs b) one ∙ mem-alone q b,
    )

    pub forward-without_right : (unlink l q t).forward (handle l) ≡ []
    unfolding unlink
    forward-without_right = rw (==_self (handle l), one) (retain_ne-alone q)

    pub reverse-without_right :
        holds t l r ≡ false → (unlink l q t).reverse (handle r) ≡ t.reverse (handle r)
    unfolding unlink
    reverse-without_right absent =
        let apart : (handle q == handle r) ≡ false = ground (
          arith,
          same_handle previous_right-IsIssued hr,
          ref_eq_iff q r,
          ap (λ xs. mem xs r) one ∙ mem-alone q r,
        ) in
        rw apart refl
