-- ===== src/Relations/Rows.antt =====
-- relations.rs: what a well-formed pair of maps is, that the changes of rows keep it, and what each
-- change does to what the maps hold.
use zebulon_lang.Prelude.{
  ℕ, ◌≡◌, refl, sym, ap, ◌∙◌, Bool, true, false, not, ◌&&◌, ◌||◌, some, List, [], ◌∷◌, ◌++◌, ◌==◌,
  ==_iff, ==_self, fun_ext, subst, arith, inl, inr, Bool-cases,
}
use zebulon_lang.Errors.{ObjectRef, handle, ref_eq, ref_eq_iff, IsIssued, handle-injective}
use zebulon_lang.Relations.Table.{
  Rows, Delta, mem, retain_ne, position, move_last, unlink, link, reposition, update,
}
use zebulon_lang.Relations.Partners.{
  IsNodup, mem-snoc, mem-retain_ne, retain_ne-snoc, retain_ne-IsNodup, snoc-IsNodup,
  move_last-retain_ne,
}

-- The row that relates `l` to `r` is there, as the forward map has it.
abbrev pub holds : Rows → ObjectRef → ObjectRef → Bool
holds t l r = mem (t.forward (handle l)) r

pub Rows_path : {t u : Rows} → t.forward ≡ u.forward → t.reverse ≡ u.reverse → t ≡ u
Rows_path p q = λ i. record { forward = p i; reverse = q i }

-- Every reference of the list is one of the session's.
abbrev pub AllIssued : ℕ → List ObjectRef → Type 0
AllIssued session xs = (q : ObjectRef) → mem xs q ≡ true → IsIssued session q

-- Both maps have the same rows, none twice, all of one session.
pub record IsPaired (session : ℕ) (t : Rows) : Type 0 where
  pub mirror :
      (l r : ObjectRef)
      → IsIssued session l
      → IsIssued session r
      → mem (t.forward (handle l)) r ≡ mem (t.reverse (handle r)) l
  pub forward_nodup : (k : ℕ) → IsNodup (t.forward k)
  pub reverse_nodup : (k : ℕ) → IsNodup (t.reverse k)
  pub forward_issued : (k : ℕ) (r : ObjectRef) → mem (t.forward k) r ≡ true → IsIssued session r
  pub reverse_issued : (k : ℕ) (l : ObjectRef) → mem (t.reverse k) l ≡ true → IsIssued session l

module _ {session : ℕ} {a b : ObjectRef} (ha : IsIssued session a) (hb : IsIssued session b) where
  pub same_handle : (handle a == handle b) ≡ ref_eq a b
  same_handle =
      ground (arith, ref_eq_iff a b, handle-injective a b ha hb, ap {B = ℕ} handle {x = a} {y = b})

retain_ne-AllIssued :
    {session : ℕ} (r : ObjectRef) (xs : List ObjectRef)
    → AllIssued session xs
    → AllIssued session (retain_ne r xs)
retain_ne-AllIssued r xs all q e = all q (ground (arith, mem-retain_ne r xs q))

snoc-AllIssued :
    {session : ℕ} (xs : List ObjectRef) {r : ObjectRef}
    → IsIssued session r
    → AllIssued session xs
    → AllIssued session (xs ++ r ∷ [])
snoc-AllIssued {session} xs {r} hr all q e = elim (Bool-cases (mem xs q)) [
  | inl old ↦ all q old
  | inr new ↦
      let same : r ≡ q = ground (arith, mem-snoc xs r q, ref_eq_iff r q) in
      subst (IsIssued session) same hr
]

update_all {ℓ κ} :
    {A : Type ℓ} (P : A → Type κ) (f : ℕ → A) (k : ℕ) (v : A)
    → ((j : ℕ) → P (f j))
    → P v
    → (j : ℕ) → P (update f k v j)
update_all P f k v all here j = elim (Bool-cases (k == j)) [
  | inl same ↦ rw same here
  | inr other ↦ rw other (all j)
]

-- Writing back what stood at a key undoes all that was done at that key.
update_back {ℓ} :
    {A : Type ℓ} (f g : ℕ → A) (k : ℕ) (v : A)
    → v ≡ f k
    → ((j : ℕ) → (k == j) ≡ false → g j ≡ f j)
    → update g k v ≡ f
update_back f g k v e other = fun_ext λ j. elim (Bool-cases (k == j)) [
  | inl same ↦ rw same (e ∙ ap f ((==_iff k j).0 same))
  | inr apart ↦ rw apart (other j apart)
]

module _ {session : ℕ} {l r : ObjectRef} (hl : IsIssued session l) (hr : IsIssued session r)
    (t : Rows) where
  -- Removing a row removes that row, and nothing else.
  pub holds-unlink :
      {a b : ObjectRef}
      → IsIssued session a
      → IsIssued session b
      → holds (unlink l r t) a b ≡ holds t a b && not (ref_eq l a && ref_eq r b)
  unfolding unlink
  holds-unlink {a} {b} ha hb =
      ground (arith, same_handle hl ha, mem-retain_ne r (t.forward (handle l)) b, ref_eq_iff l a)

  mem-reverse-unlink :
      {a b : ObjectRef}
      → IsIssued session a
      → IsIssued session b
      → mem ((unlink l r t).reverse (handle b)) a
        ≡ mem (t.reverse (handle b)) a && not (ref_eq l a && ref_eq r b)
  unfolding unlink
  mem-reverse-unlink {a} {b} ha hb =
      ground (arith, same_handle hr hb, mem-retain_ne l (t.reverse (handle r)) a, ref_eq_iff r b)

  -- Adding a row adds that row, and nothing else.
  pub holds-link :
      {a b : ObjectRef}
      → IsIssued session a
      → IsIssued session b
      → holds (link l r t) a b ≡ holds t a b || (ref_eq l a && ref_eq r b)
  unfolding link
  holds-link {a} {b} ha hb =
      ground (arith, same_handle hl ha, mem-snoc (t.forward (handle l)) r b, ref_eq_iff l a)

  mem-reverse-link :
      {a b : ObjectRef}
      → IsIssued session a
      → IsIssued session b
      → mem ((link l r t).reverse (handle b)) a
        ≡ mem (t.reverse (handle b)) a || (ref_eq l a && ref_eq r b)
  unfolding link
  mem-reverse-link {a} {b} ha hb =
      ground (arith, same_handle hr hb, mem-snoc (t.reverse (handle r)) l a, ref_eq_iff r b)

  pub unlink-IsPaired : IsPaired session t → IsPaired session (unlink l r t)
  unlink-IsPaired p = record {
    mirror =
        λ a b ha hb. holds-unlink ha hb ∙ rw (p.mirror a b ha hb) (sym (mem-reverse-unlink ha hb));
    forward_nodup =
        unfold unlink in
        update_all IsNodup t.forward (handle l) (retain_ne r (t.forward (handle l))) p.forward_nodup
          (retain_ne-IsNodup r (t.forward (handle l)) (p.forward_nodup (handle l)));
    reverse_nodup =
        unfold unlink in
        update_all IsNodup t.reverse (handle r) (retain_ne l (t.reverse (handle r))) p.reverse_nodup
          (retain_ne-IsNodup l (t.reverse (handle r)) (p.reverse_nodup (handle r)));
    forward_issued =
        unfold unlink in
        update_all (AllIssued session) t.forward (handle l) (retain_ne r (t.forward (handle l)))
          p.forward_issued
          (retain_ne-AllIssued r (t.forward (handle l)) (p.forward_issued (handle l)));
    reverse_issued =
        unfold unlink in
        update_all (AllIssued session) t.reverse (handle r) (retain_ne l (t.reverse (handle r)))
          p.reverse_issued
          (retain_ne-AllIssued l (t.reverse (handle r)) (p.reverse_issued (handle r)));
  }

  pub link-IsPaired : holds t l r ≡ false → IsPaired session t → IsPaired session (link l r t)
  link-IsPaired absent p = record {
    mirror = λ a b ha hb. holds-link ha hb ∙ rw (p.mirror a b ha hb) (sym (mem-reverse-link ha hb));
    forward_nodup =
        unfold link in
        update_all IsNodup t.forward (handle l) (t.forward (handle l) ++ r ∷ []) p.forward_nodup
          (snoc-IsNodup (t.forward (handle l)) r (p.forward_nodup (handle l)) absent);
    reverse_nodup =
        unfold link in
        update_all IsNodup t.reverse (handle r) (t.reverse (handle r) ++ l ∷ []) p.reverse_nodup (
          snoc-IsNodup (t.reverse (handle r)) l (p.reverse_nodup (handle r))
            (sym (p.mirror l r hl hr) ∙ absent));
    forward_issued =
        unfold link in
        update_all (AllIssued session) t.forward (handle l) (t.forward (handle l) ++ r ∷ [])
          p.forward_issued (snoc-AllIssued (t.forward (handle l)) hr (p.forward_issued (handle l)));
    reverse_issued =
        unfold link in
        update_all (AllIssued session) t.reverse (handle r) (t.reverse (handle r) ++ l ∷ [])
          p.reverse_issued (snoc-AllIssued (t.reverse (handle r)) hl (p.reverse_issued (handle r)));
  }

  -- Taking away a row that was just added gives back the same maps, in the same order.
  pub unlink-link : holds t l r ≡ false → IsPaired session t → unlink l r (link l r t) ≡ t
  unfolding unlink link
  unlink-link absent p =
      Rows_path
        (update_back t.forward (link l r t).forward (handle l)
          (retain_ne r ((link l r t).forward (handle l)))
          (rw (==_self (handle l)) (retain_ne-snoc r (t.forward (handle l)) absent))
          (λ j e. rw e refl))
        (update_back t.reverse (link l r t).reverse (handle r)
          (retain_ne l ((link l r t).reverse (handle r)))
          (rw (==_self (handle r))
            (retain_ne-snoc l (t.reverse (handle r)) (sym (p.mirror l r hl hr) ∙ absent)))
          (λ j e. rw e refl))

  -- Putting a removed row back, with its two positions, gives back the same maps, in the same order.
  pub reposition-link-unlink :
      (d : Delta)
      → d.left ≡ l
      → d.right ≡ r
      → position r (t.forward (handle l)) ≡ some d.forward_position
      → position l (t.reverse (handle r)) ≡ some d.reverse_position
      → IsPaired session t
      → reposition d (link l r (unlink l r t)) ≡ t
  unfolding reposition link unlink
  reposition-link-unlink d el er fp rp p =
      rw (el, er)
        (Rows_path
          (update_back t.forward (link l r (unlink l r t)).forward (handle l)
            (move_last d.forward_position ((link l r (unlink l r t)).forward (handle l)))
            (rw (==_self (handle l)) (
              move_last-retain_ne r (t.forward (handle l)) d.forward_position
                (p.forward_nodup (handle l)) fp))
            (λ j e. rw e refl))
          (update_back t.reverse (link l r (unlink l r t)).reverse (handle r)
            (move_last d.reverse_position ((link l r (unlink l r t)).reverse (handle r)))
            (rw (==_self (handle r)) (
              move_last-retain_ne l (t.reverse (handle r)) d.reverse_position
                (p.reverse_nodup (handle r)) rp))
            (λ j e. rw e refl)))
