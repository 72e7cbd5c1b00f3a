-- ===== src/Objects/Definer.antt =====
-- objects.rs: `lookup` and `definer` are two walks over the same superclasses.
use zebulon_lang.Prelude.Maps.{Map, contains_key, find}
use zebulon_lang.Errors.{ObjectRef}
use zebulon_lang.Prelude.{
  ◌==◌, length, List-cases, ◌∷◌, ◌≡◌, List, ℕ, Option, refl, zero, none, some, true, false, ok, [],
  inl, inr, suc, Result-cases, Option-cases, Bool-cases,
}
use zebulon_lang.Prelude.Results.{◌>>=◌}
use zebulon_lang.Objects.{Store, Look, Value}
use zebulon_lang.Objects.Access.{
  record_of, Chain, found, undefined, branched, lookup_chain, definer_chain, expanded, first_value,
  first_definer, lookup, definer,
}

-- What an object itself says of a property.
abbrev pub own_value : Store → ℕ → ObjectRef → Look (Option Value)
own_value s p o = do r ← record_of s o; ok (find r.properties p)

abbrev pub value_at : Store → ℕ → Option ObjectRef → Look (Option Value)
value_at s p none = ok none
value_at s p (some o) = own_value s p o

abbrev pub as_chain : Option Value → Look (Chain Value)
as_chain none = ok undefined
as_chain (some v) = ok (found v)

abbrev pub chain_at : Store → ℕ → Chain ObjectRef → Look (Chain Value)
chain_at s p (found o) = own_value s p o >>= as_chain
chain_at s p undefined = ok undefined
chain_at s p (branched o) = ok (branched o)

contains_key-none : {V : Type 0} (m : Map V) (k : ℕ) → find m k ≡ none → contains_key m k ≡ false
unfolding find contains_key
contains_key-none [] k e = refl
contains_key-none ((j, v) ∷ m) k e = elim (Bool-cases (j == k)) [
  | inl same ↦ absurd (cc (rw same at e))
  | inr other ↦ rw other (contains_key-none m k (rw other at e))
]

contains_key-some :
    {V : Type 0} (m : Map V) (k : ℕ) {v : V} → find m k ≡ some v → contains_key m k ≡ true
unfolding find contains_key
contains_key-some [] k e = absurd (cc e)
contains_key-some ((j, v) ∷ m) k e = elim (Bool-cases (j == k)) [
  | inl same ↦ rw same refl
  | inr other ↦ rw other (contains_key-some m k (rw other at e))
]

lookup_chain_lem :
    (n : ℕ) (s : Store) (p : ℕ) (o : ObjectRef)
    → lookup_chain n s p o ≡ (definer_chain n s p o >>= chain_at s p)
unfolding lookup_chain definer_chain
lookup_chain_lem zero s p o = refl
lookup_chain_lem (suc n) s p o = elim (Result-cases (record_of s o)) [
  | inl (e, gone) ↦ simp gone refl
  | inr (r, here) ↦ elim (Option-cases (find r.properties p)) [
    | inr (v, own) ↦ simp (here, ◌>>=◌, own, contains_key-some r.properties p own) refl
    | inl absent ↦
        let undefined_here = contains_key-none r.properties p absent in
        elim (List-cases r.prototypes) [
          | inl top ↦ simp (here, ◌>>=◌, absent, undefined_here, top) refl
          | inr (parent, more, e) ↦ elim (List-cases more) [
            | inl single ↦
                simp (here, ◌>>=◌, absent, undefined_here, e, single)
                  (lookup_chain_lem n s p parent)
            | inr (q, qs, several) ↦ simp (here, ◌>>=◌, absent, undefined_here, e, several) refl
          ]
        ]
  ]
]

first_value_lem :
    (s : Store) (p : ℕ) (order : List ObjectRef)
    → first_value s p none order ≡ (first_definer s p order >>= value_at s p)
unfolding first_value first_definer
first_value_lem s p [] = refl
first_value_lem s p (o ∷ rest) = elim (Result-cases (record_of s o)) [
  | inl (e, gone) ↦ simp gone refl
  | inr (r, here) ↦ elim (Option-cases (find r.properties p)) [
    | inr (v, own) ↦ simp (here, ◌>>=◌, own, contains_key-some r.properties p own) refl
    | inl absent ↦
        simp (here, ◌>>=◌, absent, contains_key-none r.properties p absent)
          (first_value_lem s p rest)
  ]
]

-- What the two walks make of the classes from the first one with several superclasses on.
rest_lem :
    (s : Store) (p : ℕ) (at : ObjectRef)
    → (expanded s at >>= first_value s p none)
      ≡ (expanded s at >>= first_definer s p >>= value_at s p)
rest_lem s p at = elim (Result-cases (expanded s at)) [
  | inl (e, failed) ↦ simp failed refl
  | inr (order, ran) ↦ simp ran (first_value_lem s p order)
]

chosen_lem :
    (s : Store) (p : ℕ) (chain : Chain ObjectRef)
    → (chain_at s p chain >>= λ c. elim c as (λ _. Look (Option Value)) [
      | found v ↦ ok (some v)
      | undefined ↦ ok none
      | branched at ↦ expanded s at >>= first_value s p none
    ])
      ≡ (elim chain as (λ _. Look (Option ObjectRef)) [
        | found at ↦ ok (some at)
        | undefined ↦ ok none
        | branched at ↦ expanded s at >>= first_definer s p
      ]
          >>= value_at s p)
chosen_lem s p (found o) = elim (Result-cases (record_of s o)) [
  | inl (e, gone) ↦ simp gone refl
  | inr (r, here) ↦ elim (Option-cases (find r.properties p)) [
    | inl absent ↦ simp (here, ◌>>=◌, absent) refl
    | inr (v, own) ↦ simp (here, ◌>>=◌, own) refl
  ]
]
chosen_lem s p undefined = refl
chosen_lem s p (branched at) = rest_lem s p at

-- For every store, object and property, also where a walk fails: the lookup of a property is the
-- value that its definer holds of it, nil where it has no definer, and the definer's error.
pub lookup-definer :
    (s : Store) (o : ObjectRef) (p : ℕ) → lookup s o p none ≡ (definer s o p >>= value_at s p)
unfolding lookup definer
lookup-definer s o p =
    let n = suc (length s.records) in
    rw (lookup_chain_lem n s p o) (elim (Result-cases (definer_chain n s p o)) [
      | inl (e, failed) ↦ simp failed refl
      | inr (chain, ran) ↦ simp ran (chosen_lem s p chain)
    ])
