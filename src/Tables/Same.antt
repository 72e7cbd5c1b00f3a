-- ===== src/Tables/Same.antt =====
-- tables.rs, `same`: the comparison of two tables is equality.
use zebulon_lang.Prelude.{
  ==_iff, ap, ℕ, ◌≡◌, refl, arith, Bool, true, false, ◌&&◌, Option, none, some, List, [], ◌∷◌, ◌==◌,
  ==_self,
}
use zebulon_lang.Prelude.Int.{ℤ, pos, negsuc}
use zebulon_lang.Tables.{
  Term, production, literal, token, speech, star, vocabulary, Element, Rule, Tables, bytes_eq,
}

-- Element by element, the lengths compared first.
unfoldable pub list_eq : {A : Type 0} → (A → A → Bool) → List A → List A → Bool
list_eq eq [] [] = true
list_eq eq (a ∷ xs) (b ∷ ys) = eq a b && list_eq eq xs ys
list_eq eq _ _ = false

unfoldable pub option_eq : Option ℕ → Option ℕ → Bool
option_eq none none = true
option_eq (some a) (some b) = a == b
option_eq _ _ = false

unfoldable pub int_eq : ℤ → ℤ → Bool
int_eq (pos a) (pos b) = a == b
int_eq (negsuc a) (negsuc b) = a == b
int_eq _ _ = false

-- The derived `PartialEq` of `StaticTerm`.
unfoldable pub term_eq : Term → Term → Bool
term_eq (production a) (production b) = a == b
term_eq (literal a) (literal b) = bytes_eq a b
term_eq (token a) (token b) = a == b
term_eq (speech a) (speech b) = a == b
term_eq star star = true
term_eq (vocabulary a) (vocabulary b) = a == b
term_eq _ _ = false

unfoldable pub element_eq : Element → Element → Bool
element_eq a b = term_eq a.term b.term && option_eq a.capture b.capture

unfoldable pub rule_eq : Rule → Rule → Bool
rule_eq a b =
    a.production_slot == b.production_slot
    && option_eq a.match_slot b.match_slot
    && int_eq a.badness b.badness
    && list_eq element_eq a.elements b.elements

unfoldable pub same : Tables → Tables → Bool
same a b =
    list_eq bytes_eq a.literals b.literals
    && list_eq option_eq a.grammar.productions b.grammar.productions
    && option_eq a.grammar.badness_property b.grammar.badness_property
    && option_eq a.grammar.first_token_index b.grammar.first_token_index
    && option_eq a.grammar.last_token_index b.grammar.last_token_index
    && option_eq a.grammar.token_list b.grammar.token_list
    && list_eq rule_eq a.grammar.rules b.grammar.rules

both : (a b : Bool) → a && b ≡ true → (a ≡ true) × (b ≡ true)
both true b e = (refl, e)
both false b e = cc e

bytes_eq_self : (xs : List ℕ) → bytes_eq xs xs ≡ true
unfolding bytes_eq
bytes_eq_self [] = refl
bytes_eq_self (x ∷ xs) = rw (==_self x, bytes_eq_self xs) refl

list_eq_self :
    {A : Type 0} (eq : A → A → Bool)
    → ((a : A) → eq a a ≡ true)
    → (xs : List A) → list_eq eq xs xs ≡ true
unfolding list_eq
list_eq_self eq h [] = refl
list_eq_self eq h (x ∷ xs) = rw (h x, list_eq_self eq h xs) refl

option_eq_self : (o : Option ℕ) → option_eq o o ≡ true
unfolding option_eq
option_eq_self none = refl
option_eq_self (some a) = ==_self a

int_eq_self : (a : ℤ) → int_eq a a ≡ true
unfolding int_eq
int_eq_self (pos a) = ==_self a
int_eq_self (negsuc a) = ==_self a

term_eq_self : (t : Term) → term_eq t t ≡ true
unfolding term_eq
term_eq_self (production a) = ==_self a
term_eq_self (literal a) = bytes_eq_self a
term_eq_self (token a) = ==_self a
term_eq_self (speech a) = ==_self a
term_eq_self star = refl
term_eq_self (vocabulary a) = ==_self a

element_eq_self : (e : Element) → element_eq e e ≡ true
unfolding element_eq
element_eq_self e = rw (term_eq_self e.term, option_eq_self e.capture) refl

rule_eq_self : (r : Rule) → rule_eq r r ≡ true
unfolding rule_eq
rule_eq_self r =
    rw
      (
        ==_self r.production_slot,
        option_eq_self r.match_slot,
        int_eq_self r.badness,
        list_eq_self element_eq element_eq_self r.elements,
      )
      refl

pub same_self : (t : Tables) → same t t ≡ true
unfolding same
same_self t =
    rw
      (
        list_eq_self bytes_eq bytes_eq_self t.literals,
        list_eq_self option_eq option_eq_self t.grammar.productions,
        option_eq_self t.grammar.badness_property,
        option_eq_self t.grammar.first_token_index,
        option_eq_self t.grammar.last_token_index,
        option_eq_self t.grammar.token_list,
        list_eq_self rule_eq rule_eq_self t.grammar.rules,
      )
      refl

-- What the comparisons accept is equal.
bytes_eq-eq : (xs ys : List ℕ) → bytes_eq xs ys ≡ true → xs ≡ ys
unfolding bytes_eq
bytes_eq-eq [] [] e = refl
bytes_eq-eq [] (y ∷ ys) e = cc e
bytes_eq-eq (x ∷ xs) [] e = cc e
bytes_eq-eq (x ∷ xs) (y ∷ ys) e = ground (arith, bytes_eq-eq xs ys)

list_eq-eq :
    {A : Type 0} (eq : A → A → Bool)
    → ((a b : A) → eq a b ≡ true → a ≡ b)
    → (xs ys : List A) → list_eq eq xs ys ≡ true
    → xs ≡ ys
unfolding list_eq
list_eq-eq eq h [] [] e = refl
list_eq-eq eq h [] (y ∷ ys) e = cc e
list_eq-eq eq h (x ∷ xs) [] e = cc e
list_eq-eq eq h (x ∷ xs) (y ∷ ys) e =
    let (first, rest) = both (eq x y) (list_eq eq xs ys) e in
    cc (h x y first, list_eq-eq eq h xs ys rest)

option_eq-eq : (a b : Option ℕ) → option_eq a b ≡ true → a ≡ b
unfolding option_eq
option_eq-eq none none e = refl
option_eq-eq none (some b) e = cc e
option_eq-eq (some a) none e = cc e
option_eq-eq (some a) (some b) e = ap some ((==_iff a b).0 e)

int_eq-eq : (a b : ℤ) → int_eq a b ≡ true → a ≡ b
unfolding int_eq
int_eq-eq (pos a) (pos b) e = ap pos ((==_iff a b).0 e)
int_eq-eq (pos a) (negsuc b) e = cc e
int_eq-eq (negsuc a) (pos b) e = cc e
int_eq-eq (negsuc a) (negsuc b) e = ap negsuc ((==_iff a b).0 e)

term_eq-eq : (a b : Term) → term_eq a b ≡ true → a ≡ b
unfolding term_eq
term_eq-eq (production a) (production b) e = ap production ((==_iff a b).0 e)
term_eq-eq (literal a) (literal b) e = ap literal (bytes_eq-eq a b e)
term_eq-eq (token a) (token b) e = ap token ((==_iff a b).0 e)
term_eq-eq (speech a) (speech b) e = ap speech ((==_iff a b).0 e)
term_eq-eq star star e = refl
term_eq-eq (vocabulary a) (vocabulary b) e = ap vocabulary ((==_iff a b).0 e)
term_eq-eq (production a) _ e = cc e
term_eq-eq (literal a) _ e = cc e
term_eq-eq (token a) _ e = cc e
term_eq-eq (speech a) _ e = cc e
term_eq-eq star _ e = cc e
term_eq-eq (vocabulary a) _ e = cc e

element_eq-eq : (a b : Element) → element_eq a b ≡ true → a ≡ b
unfolding element_eq
element_eq-eq a b e =
    let (t, c) = both _ _ e in
    let pt = term_eq-eq a.term b.term t in
    let pc = option_eq-eq a.capture b.capture c in λ i. record { term = pt i; capture = pc i }

rule_eq-eq : (a b : Rule) → rule_eq a b ≡ true → a ≡ b
unfolding rule_eq
rule_eq-eq a b e =
    let (e123, e4) = both _ _ e in
    let (e12, e3) = both _ _ e123 in
    let (e1, e2) = both _ _ e12 in
    let p1 = (==_iff a.production_slot b.production_slot).0 e1 in
    let p2 = option_eq-eq a.match_slot b.match_slot e2 in
    let p3 = int_eq-eq a.badness b.badness e3 in
    let p4 = list_eq-eq element_eq element_eq-eq a.elements b.elements e4 in
    λ i. record { production_slot = p1 i; match_slot = p2 i; badness = p3 i; elements = p4 i }

pub same-eq : (a b : Tables) → same a b ≡ true → a ≡ b
unfolding same
same-eq a b e =
    let (e6, r) = both _ _ e in
    let (e5, tl) = both _ _ e6 in
    let (e4, lt) = both _ _ e5 in
    let (e3, ft) = both _ _ e4 in
    let (e2, bp) = both _ _ e3 in
    let (ls, ps) = both _ _ e2 in
    let p0 = list_eq-eq bytes_eq bytes_eq-eq a.literals b.literals ls in
    let p1 = list_eq-eq option_eq option_eq-eq a.grammar.productions b.grammar.productions ps in
    let p2 = option_eq-eq a.grammar.badness_property b.grammar.badness_property bp in
    let p3 = option_eq-eq a.grammar.first_token_index b.grammar.first_token_index ft in
    let p4 = option_eq-eq a.grammar.last_token_index b.grammar.last_token_index lt in
    let p5 = option_eq-eq a.grammar.token_list b.grammar.token_list tl in
    let p6 = list_eq-eq rule_eq rule_eq-eq a.grammar.rules b.grammar.rules r in
    λ i. record {
      literals = p0 i;
      grammar = record {
        productions = p1 i;
        badness_property = p2 i;
        first_token_index = p3 i;
        last_token_index = p4 i;
        token_list = p5 i;
        rules = p6 i;
      };
    }
