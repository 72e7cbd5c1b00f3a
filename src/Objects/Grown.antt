-- ===== src/Objects/Grown.antt =====
-- objects.rs, `create`: a new record is one more tree, in a slot that nothing uses.
use zebulon_lang.Objects.Uproot.{record_of_node}
use zebulon_lang.Objects.Access.{record_of}
use zebulon_lang.Prelude.Maps.{find-insert_ne, find-insert_self, insert, find}
use zebulon_lang.Objects.{Store}
use zebulon_lang.Prelude.{
  ◌-◌, ltb, ap, ==_self, leb, ==_iff, subst, ◌∷◌, ◌==◌, arith, Bool-cases, ◌^◌, ◌∙◌, ◌+◌, sym, ◌<◌,
  ◌||◌, length, List, ◌≡◌, Bool, ℕ, refl, none, true, false, ok, [], inl, inr,
}
use zebulon_lang.Objects.Owners.{slot_from, slot_for, created, admit, create, fresh_record}
use zebulon_lang.Objects.Ownership.{IsNative, IsForest}
use zebulon_lang.Objects.Forest.{
  IsNode, Forest, empty, plant, has, IsApart, Holds, Holds-agree, IsDistinct, lists, is_some,
  insert_id_lem,
}

-- A slot that is handed out is unused, not left on the list, and below the next identity but one.
slot_lem :
    (used : ℕ → Bool) (next : ℕ) (free : List ℕ)
    → IsDistinct free
    → ((l : ℕ) → lists free l ≡ true → used l ≡ false)
    → ((l : ℕ) → (used l || lists free l) ≡ true → l < next)
    → let (slot, rest) = slot_from next free in
      (used slot ≡ false)
      × IsDistinct rest
      × (lists rest slot ≡ false)
      × ((l : ℕ) → lists rest l ≡ true → lists free l ≡ true)
      × (slot < next + 1)
unfolding IsDistinct lists
slot_lem used next [] d unused issued = (
  elim (Bool-cases (used next)) [
    | inl is ↦ absurd (omega (arith, issued next (ground arith)))
    | inr other ↦ other
  ],
  tt,
  refl,
  (λ l e. e),
  omega arith,
)
slot_lem used next (slot ∷ rest) (not_again, d) unused issued =
    let listed : (slot == slot || lists rest slot) ≡ true = rw (==_self slot) refl in
    (
      unused slot listed,
      d,
      not_again,
      (λ l e. ground arith),
      omega (arith, issued slot (ground (arith, listed))),
    )

module _ {s : Store} {f : Forest} (h : IsForest s f) where
  admit-IsForest : IsForest (admit s) (plant (created s) empty f)
  unfolding admit Holds IsApart IsNative has lists
  admit-IsForest =
      let i = h.indexed in
      let used : ℕ → Bool = λ l. is_some (find s.records l) in
      let (unused, distinct, not_again, sub, below) =
        slot_lem used s.next_identity s.free_slots i.distinct i.unused i.issued in
      let o = created s in
      let r = fresh_record s.next_identity s.default_lifetime in
      let fresh : has f o.logical ≡ false = sym (h.complete o.logical) ∙ unused in
      let (asc, lists') =
        insert_id_lem o.logical s.record_order i.ascending (i.lists_all o.logical ∙ unused) in
      let find' : (l : ℕ)
          → is_some (find (insert o.logical r s.records) l) ≡ (o.logical == l || used l) =
        λ l. elim (Bool-cases (o.logical == l)) [
          | inl at ↦ rw at (
              subst (λ k. is_some (find (insert o.logical r s.records) k) ≡ true)
                ((==_iff o.logical l).0 at) (ap is_some (find-insert_self s.records o.logical r)))
          | inr other ↦ rw other (ap is_some (find-insert_ne s.records o.logical l r other))
        ] in
      record {
        rooted = ap (λ rs. o ∷ rs) h.rooted;
        holds = (
          record {
            held = r;
            here = find-insert_self s.records o.logical r;
            ages = refl;
            lives = refl;
            below = refl;
            owns = refl;
          },
          tt,
          Holds-agree s.records (insert o.logical r s.records) none f
              (λ l e. find-insert_ne s.records o.logical l r (elim (Bool-cases (o.logical == l)) [
                | inl at ↦ absurd (cc (ap (has f) ((==_iff o.logical l).0 at), fresh, e))
                | inr other ↦ other
              ]))
              h.holds,
        );
        apart = (refl, fresh, (λ l e. absurd (cc e)), tt, h.apart);
        complete = λ l. find' l ∙ ground (arith, h.complete l);
        native = (refl, tt, h.native);
        indexed = record {
          ascending = asc;
          lists_all = λ l. lists' l ∙ ground (arith, i.lists_all l, find' l);
          distinct = distinct;
          unused = λ l e. elim (Bool-cases (o.logical == l)) [
            | inl at ↦
                absurd (cc (ap (lists (slot_for s).1) ((==_iff o.logical l).0 at), not_again, e))
            | inr other ↦ ground (arith, find' l, i.unused l (sub l e))
          ];
          issued = λ l e. elim (Bool-cases (o.logical == l)) [
            | inl at ↦ subst (λ k. k < s.next_identity + 1) ((==_iff o.logical l).0 at) below
            | inr other ↦ omega (arith, i.issued l (ground (arith, find' l, sub l)))
          ];
        };
        idle = h.idle;
      }

  record_of-admit :
      record_of (admit s) (created s) ≡ ok (fresh_record s.next_identity s.default_lifetime)
  unfolding admit
  record_of-admit =
      let r = fresh_record s.next_identity s.default_lifetime in
      let node : IsNode (admit s).records none (created s) [] = record {
        held = r;
        here = find-insert_self s.records (created s).logical r;
        ages = refl;
        lives = refl;
        below = refl;
        owns = refl;
      } in
      record_of_node (admit s) node refl

  -- In a store that is a forest, is not terminal and has room for a record and an identity, `create`
  -- answers a reference that no record had: the store is then the forest with one more root, and
  -- the reference reads a live record that nothing owns.
  pub create-IsForest :
      s.terminal ≡ false
      → length s.records < s.limits.objects
      → s.next_identity + 1 < 2 ^ 32
      → (u : Store) × (create s ≡ (ok (created s), u))
        × IsForest u (plant (created s) empty f)
        × (has f (created s).logical ≡ false)
        × (record_of u (created s) ≡ ok (fresh_record s.next_identity s.default_lifetime))
  unfolding create Holds IsNative IsApart
  create-IsForest active room identities =
      let forest = admit-IsForest in
      let no_limit : leb s.limits.objects (length s.records) ≡ false = ground arith in
      let no_end : ltb (2 ^ 32 - 1) (s.next_identity + 1) ≡ false = ground arith in
      (admit s, simp (active, no_limit, no_end) refl, forest, forest.apart.1, record_of-admit)
