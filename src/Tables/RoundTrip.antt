-- ===== src/Tables/RoundTrip.antt =====
-- tables.rs of the compiler and of the runtime: what one writes, the other decodes.
use zebulon_lang.Prelude.{
  ℕ, ◌+◌, ◌-◌, ◌^◌, ◌<◌, ◌≡◌, refl, sym, ap, ◌∙◌, true, false, Option, none, some, List, [], ◌∷◌,
  ◌++◌, arith, ltb, leb, subst, length, length-append, take, drop, drop-append, take-append, ok,
  if◌then◌else◌,
}
use zebulon_lang.Prelude.Exec.{pure, raise, ◌>>=◌}
use zebulon_lang.Prelude.Codec.{Reads, Reads-pure, Reads-then, Reads-map, Reads-nested}
use zebulon_lang.Prelude.Bytes.{le_bytes, length-le_bytes, of_le_bytes-le_bytes, is_utf8}
use zebulon_lang.Prelude.Int.{ℤ, pos, negsuc, fits_i32}
use zebulon_lang.Tables.{
  Fault, Term, production, literal, token, speech, star, vocabulary, Element, Rule, Tables, Read,
  read_slice, read_u32, option_of, read_option, read_string, read_each, read_many, signed32,
  term_of, read_element, read_rule, read_tables,
}
use zebulon_lang.Tables.Writer.{word_of}

-- Blobs are shorter than the address space.
abbrev pub address_limit : ℕ
address_limit = 2 ^ 64 - 1

-- The bytes of each value.
abbrev pub option_bytes : Option ℕ → List ℕ
option_bytes none = le_bytes 4 0
option_bytes (some value) = le_bytes 4 1 ++ le_bytes 4 value

abbrev pub string_bytes : List ℕ → List ℕ
string_bytes text = le_bytes 4 (length text) ++ text

unfoldable pub each_bytes : {A : Type 0} → (A → List ℕ) → List A → List ℕ
each_bytes one [] = []
each_bytes one (value ∷ rest) = one value ++ each_bytes one rest

abbrev pub many_bytes : {A : Type 0} → (A → List ℕ) → List A → List ℕ
many_bytes one values = le_bytes 4 (length values) ++ each_bytes one values

abbrev pub term_bytes : Term → List ℕ
term_bytes (production value) = le_bytes 4 0 ++ le_bytes 4 value
term_bytes (literal text) = le_bytes 4 1 ++ string_bytes text
term_bytes (token value) = le_bytes 4 2 ++ le_bytes 4 value
term_bytes (speech value) = le_bytes 4 3 ++ le_bytes 4 value
term_bytes star = le_bytes 4 4 ++ []
term_bytes (vocabulary value) = le_bytes 4 5 ++ le_bytes 4 value

abbrev pub element_bytes : Element → List ℕ
element_bytes e = term_bytes e.term ++ option_bytes e.capture

abbrev pub rule_bytes : Rule → List ℕ
rule_bytes r =
    le_bytes 4 r.production_slot
    ++ (option_bytes r.match_slot
        ++ (le_bytes 4 (word_of r.badness) ++ many_bytes element_bytes r.elements))

abbrev pub tables_bytes : Tables → List ℕ
tables_bytes t =
    many_bytes string_bytes t.literals
    ++ (many_bytes option_bytes t.grammar.productions
        ++ (option_bytes t.grammar.badness_property
            ++ (option_bytes t.grammar.first_token_index
                ++ (option_bytes t.grammar.last_token_index
                    ++ (option_bytes t.grammar.token_list
                        ++ many_bytes rule_bytes t.grammar.rules)))))

-- Every number fits in a `u32` (badness in an `i32`), every count too, and every text is UTF-8.
abbrev pub IsWord : ℕ → Type 0
IsWord n = n < 2 ^ 32

abbrev pub IsOption : Option ℕ → Type 0
IsOption none = Unit
IsOption (some value) = IsWord value

abbrev pub IsText : List ℕ → Type 0
IsText text = (is_utf8 text ≡ true) × IsWord (length text)

abbrev pub Each : {A : Type 0} → (A → Type 0) → List A → Type 0
Each P [] = Unit
Each P (value ∷ rest) = P value × Each P rest

abbrev pub Many : {A : Type 0} → (A → Type 0) → List A → Type 0
Many P values = IsWord (length values) × Each P values

abbrev pub IsTerm : Term → Type 0
IsTerm (production value) = IsWord value
IsTerm (literal text) = IsText text
IsTerm (token value) = IsWord value
IsTerm (speech value) = IsWord value
IsTerm star = Unit
IsTerm (vocabulary value) = IsWord value

abbrev pub IsElement : Element → Type 0
IsElement e = IsTerm e.term × IsOption e.capture

abbrev pub IsRule : Rule → Type 0
IsRule r =
    IsWord r.production_slot
    × IsOption r.match_slot
    × (fits_i32 r.badness ≡ true)
    × Many IsElement r.elements

pub record AreTables (t : Tables) : Type 0 where
  pub literals : Many IsText t.literals
  pub productions : Many IsOption t.grammar.productions
  pub badness : IsOption t.grammar.badness_property
  pub first : IsOption t.grammar.first_token_index
  pub last : IsOption t.grammar.last_token_index
  pub tokens : IsOption t.grammar.token_list
  pub rules : Many IsRule t.grammar.rules

read_slice-Reads : (bs : List ℕ) → Reads address_limit (read_slice (length bs)) bs bs
unfolding read_slice
read_slice-Reads bs pre post h =
    let size = length-append pre (bs ++ post) in
    let size' = length-append bs post in
    let no_overflow : leb (2 ^ 64) (length pre + length bs) ≡ false = ground arith in
    let inside : ltb (length (pre ++ (bs ++ post))) (length pre + length bs) ≡ false =
      ground arith in
    let slice : take (length bs) (drop (length pre) (pre ++ (bs ++ post))) ≡ bs =
      rw (drop-append pre (bs ++ post)) (take-append bs post) in
    rw (no_overflow, inside, slice) refl

read_u32-Reads : (n : ℕ) → IsWord n → Reads address_limit read_u32 (le_bytes 4 n) n
unfolding read_u32
read_u32-Reads n fits pre post h =
    let raw : read_slice 4 (record { bytes = pre ++ (le_bytes 4 n ++ post); at = length pre }) ≡ (
      ok (le_bytes 4 n),
      record { bytes = pre ++ (le_bytes 4 n ++ post); at = length pre + length (le_bytes 4 n) },
    ) =
      ap (λ k. read_slice k (record { bytes = pre ++ (le_bytes 4 n ++ post); at = length pre }))
        (sym (length-le_bytes 4 n))
      ∙ read_slice-Reads (le_bytes 4 n) pre post h in
    rw (raw, of_le_bytes-le_bytes 4 n (omega arith)) refl

read_option-Reads : (o : Option ℕ) → IsOption o → Reads address_limit read_option (option_bytes o) o
unfolding read_option option_of
read_option-Reads none v pre post h = rw (read_u32-Reads 0 (omega arith) pre post h) refl
read_option-Reads (some value) v pre post h =
    Reads-then address_limit read_u32 option_of (le_bytes 4 1) (le_bytes 4 value) 1 (some value)
      (read_u32-Reads 1 (omega arith))
      (Reads-map address_limit read_u32 some (le_bytes 4 value) value (read_u32-Reads value v)) pre
      post h

read_string-Reads :
    (text : List ℕ) → IsText text → Reads address_limit read_string (string_bytes text) text
unfolding read_string
read_string-Reads text (valid, fits) =
    Reads-then address_limit read_u32
      (λ len. read_slice len >>= λ bs. if is_utf8 bs then pure bs else raise Fault.malformed)
      (le_bytes 4 (length text)) text (length text) text (read_u32-Reads (length text) fits)
      (λ pre post h. rw (read_slice-Reads text pre post h, valid) refl)

module _ {A : Type 0} (one : Read A) (bytes : A → List ℕ) (P : A → Type 0)
    (reads : (a : A) → P a → Reads address_limit one (bytes a) a) where
  read_each-Reads :
      (values : List A)
      → Each P values
      → Reads address_limit (read_each one (length values)) (each_bytes bytes values) values
  unfolding read_each each_bytes
  read_each-Reads [] v = Reads-pure address_limit []
  read_each-Reads (a ∷ values) (va, v) =
      Reads-then address_limit one (λ x. read_each one (length values) >>= λ xs. pure (x ∷ xs))
        (bytes a) (each_bytes bytes values) a (a ∷ values) (reads a va)
        (Reads-map address_limit (read_each one (length values)) (λ xs. a ∷ xs)
          (each_bytes bytes values) values (read_each-Reads values v))

  read_many-Reads :
      (values : List A)
      → Many P values
      → Reads address_limit (read_many one) (many_bytes bytes values) values
  unfolding read_many
  read_many-Reads values (fits, v) =
      Reads-then address_limit read_u32 (read_each one) (le_bytes 4 (length values))
        (each_bytes bytes values) (length values) values (read_u32-Reads (length values) fits)
        (read_each-Reads values v)

signed32-word_of : (b : ℤ) → fits_i32 b ≡ true → (signed32 (word_of b) ≡ b) × IsWord (word_of b)
unfolding signed32 word_of fits_i32
signed32-word_of (pos n) h =
    let small : ltb n (2 ^ 31) ≡ true = ground arith in (rw small refl, ground arith)
signed32-word_of (negsuc n) h =
    let large : ltb (2 ^ 32 - n - 1) (2 ^ 31) ≡ false = ground arith in
    (rw large (ap negsuc (ground arith)), ground arith)

-- A tag, and what follows it.
tagged :
    (tag : ℕ) (bs : List ℕ) (t : Term)
    → IsWord tag
    → Reads address_limit (term_of tag) bs t
    → Reads address_limit (read_u32 >>= term_of) (le_bytes 4 tag ++ bs) t
tagged tag bs t fits h =
    Reads-then address_limit read_u32 term_of (le_bytes 4 tag) bs tag t (read_u32-Reads tag fits) h

read_term-Reads :
    (t : Term) → IsTerm t → Reads address_limit (read_u32 >>= term_of) (term_bytes t) t
unfolding term_of
read_term-Reads (production n) v =
    tagged 0 (le_bytes 4 n) (production n) (omega arith)
      (Reads-map address_limit read_u32 (λ x. production x) (le_bytes 4 n) n (read_u32-Reads n v))
read_term-Reads (literal text) v = tagged 1 (string_bytes text) (literal text) (omega arith) (
    Reads-map address_limit read_string (λ x. literal x) (string_bytes text) text
      (read_string-Reads text v))
read_term-Reads (token n) v =
    tagged 2 (le_bytes 4 n) (token n) (omega arith)
      (Reads-map address_limit read_u32 (λ x. token x) (le_bytes 4 n) n (read_u32-Reads n v))
read_term-Reads (speech n) v =
    tagged 3 (le_bytes 4 n) (speech n) (omega arith)
      (Reads-map address_limit read_u32 (λ x. speech x) (le_bytes 4 n) n (read_u32-Reads n v))
read_term-Reads star v = tagged 4 [] star (omega arith) (Reads-pure address_limit star)
read_term-Reads (vocabulary n) v =
    tagged 5 (le_bytes 4 n) (vocabulary n) (omega arith)
      (Reads-map address_limit read_u32 (λ x. vocabulary x) (le_bytes 4 n) n (read_u32-Reads n v))

with_capture : Term → Read Element
with_capture term = do capture ← read_option; pure (record { term = term; capture = capture })

read_element-Reads :
    (e : Element) → IsElement e → Reads address_limit read_element (element_bytes e) e
unfolding read_element with_capture
read_element-Reads e (vt, vc) =
    Reads-nested address_limit read_u32 term_of with_capture (element_bytes e) e (
      Reads-then address_limit (read_u32 >>= term_of) with_capture (term_bytes e.term)
        (option_bytes e.capture) e.term e (read_term-Reads e.term vt)
        (Reads-map address_limit read_option
          (λ (capture : Option ℕ). record { term = e.term; capture = capture })
          (option_bytes e.capture) e.capture (read_option-Reads e.capture vc)))

-- The rest of a rule, once its slots are read.
rule_with : ℕ → Option ℕ → ℕ → List Element → Rule
rule_with slot match_slot badness elements = record {
  production_slot = slot;
  match_slot = match_slot;
  badness = signed32 badness;
  elements = elements;
}

read_rule-Reads : (r : Rule) → IsRule r → Reads address_limit read_rule (rule_bytes r) r
unfolding read_rule rule_with
read_rule-Reads r (vp, vm, vb, ve) =
    let (back, fits) = signed32-word_of r.badness vb in
    let slot = r.production_slot in
    let elements : List Element → Rule = λ es. rule_with slot r.match_slot (word_of r.badness) es in
    let built : elements r.elements ≡ r =
      ap
        (λ (b : ℤ). record {
          production_slot = slot;
          match_slot = r.match_slot;
          badness = b;
          elements = r.elements;
        })
        back in
    subst (λ (q : Rule). Reads address_limit read_rule (rule_bytes r) q) built
      (Reads-then address_limit read_u32
        (λ p. read_option >>= λ m.
          read_u32 >>= λ b. read_many read_element >>= λ es. pure (rule_with p m b es))
        (le_bytes 4 slot) _ slot (elements r.elements) (read_u32-Reads slot vp)
        (Reads-then address_limit read_option
          (λ m. read_u32 >>= λ b. read_many read_element >>= λ es. pure (rule_with slot m b es))
          (option_bytes r.match_slot) _ r.match_slot (elements r.elements)
          (read_option-Reads r.match_slot vm)
          (Reads-then address_limit read_u32
            (λ b. read_many read_element >>= λ es. pure (rule_with slot r.match_slot b es))
            (le_bytes 4 (word_of r.badness)) _ (word_of r.badness) (elements r.elements)
            (read_u32-Reads (word_of r.badness) fits)
            (Reads-map address_limit (read_many read_element) elements
              (many_bytes element_bytes r.elements) r.elements
              (read_many-Reads read_element element_bytes IsElement read_element-Reads r.elements
                ve)))))

pub read_tables-Reads :
    (t : Tables) → AreTables t → Reads address_limit read_tables (tables_bytes t) t
unfolding read_tables
read_tables-Reads t v =
    let g = t.grammar in
    let all : List (List ℕ)
        → List (Option ℕ)
        → Option ℕ
        → Option ℕ
        → Option ℕ
        → Option ℕ
        → List Rule
        → Tables =
      λ ls ps b f l k rs. record {
        literals = ls;
        grammar = record {
          productions = ps;
          rules = rs;
          badness_property = b;
          first_token_index = f;
          last_token_index = l;
          token_list = k;
        };
      } in
    Reads-then address_limit (read_many read_string)
      (λ ls. read_many read_option >>= λ ps. read_option >>= λ b. read_option >>= λ f.
        read_option >>= λ l.
        read_option >>= λ k. read_many read_rule >>= λ rs. pure (all ls ps b f l k rs))
      (many_bytes string_bytes t.literals) _ t.literals t
      (read_many-Reads read_string string_bytes IsText read_string-Reads t.literals v.literals)
      (Reads-then address_limit (read_many read_option)
        (λ ps. read_option >>= λ b. read_option >>= λ f. read_option >>= λ l.
          read_option >>= λ k. read_many read_rule >>= λ rs. pure (all t.literals ps b f l k rs))
        (many_bytes option_bytes g.productions) _ g.productions t
        (read_many-Reads read_option option_bytes IsOption read_option-Reads g.productions
          v.productions)
        (Reads-then address_limit read_option
          (λ b. read_option >>= λ f. read_option >>= λ l. read_option >>= λ k.
            read_many read_rule >>= λ rs. pure (all t.literals g.productions b f l k rs))
          (option_bytes g.badness_property) _ g.badness_property t
          (read_option-Reads g.badness_property v.badness)
          (Reads-then address_limit read_option
            (λ f. read_option >>= λ l. read_option >>= λ k. read_many read_rule >>= λ rs.
              pure (all t.literals g.productions g.badness_property f l k rs))
            (option_bytes g.first_token_index) _ g.first_token_index t
            (read_option-Reads g.first_token_index v.first)
            (Reads-then address_limit read_option
              (λ l. read_option >>= λ k. read_many read_rule >>= λ rs.
                pure (all t.literals g.productions g.badness_property g.first_token_index l k rs))
              (option_bytes g.last_token_index) _ g.last_token_index t
              (read_option-Reads g.last_token_index v.last)
              (Reads-then address_limit read_option
                (λ k. read_many read_rule >>= λ rs. pure (
                  all t.literals g.productions g.badness_property g.first_token_index
                    g.last_token_index k rs))
                (option_bytes g.token_list) _ g.token_list t
                (read_option-Reads g.token_list v.tokens)
                (Reads-map address_limit (read_many read_rule)
                  (all t.literals g.productions g.badness_property g.first_token_index
                    g.last_token_index g.token_list)
                  (many_bytes rule_bytes g.rules) g.rules
                  (read_many-Reads read_rule rule_bytes IsRule read_rule-Reads g.rules
                    v.rules)))))))
