-- ===== src/Tables/Wrote.antt =====
-- tables.rs of the compiler: the bytes that `blob` writes.
use zebulon_lang.Prelude.{
  ℕ, ◌+◌, ◌^◌, ◌<◌, ◌≡◌, refl, sym, ap, ◌∙◌, true, Option, none, some, List, [], ◌∷◌, ◌++◌,
  append_assoc, append-nil, arith, ltb, length, ok, ◌==◌,
}
use zebulon_lang.Prelude.Exec.{◌>>◌}
use zebulon_lang.Prelude.Bytes.{le_bytes}
use zebulon_lang.Tables.{
  read_tables, bytes_eq, all_read, decode, magic, Term, production, literal, token, speech, star,
  vocabulary, Element, Rule, Tables,
}
use zebulon_lang.Tables.Writer.{
  Writer, Write, extend, write_u32, write_count, write_option, write_string, write_each, write_many,
  word_of, write_term, write_element, write_rule, blob, empty_writer,
}
use zebulon_lang.Tables.RoundTrip.{
  option_bytes, string_bytes, each_bytes, many_bytes, term_bytes, element_bytes, rule_bytes,
  tables_bytes, IsWord, IsOption, IsText, Each, Many, IsTerm, IsElement, IsRule, AreTables,
  read_tables-Reads,
}

-- A call appends these bytes.
abbrev Writes : Write → List ℕ → Type 0
Writes w bs =
    (pre : List ℕ) (at : ℕ)
    → w (record { bytes = pre; at = at }) ≡ (ok tt, record { bytes = pre ++ bs; at = at })

Writes-then :
    (v w : Write) (bs cs : List ℕ) → Writes v bs → Writes w cs → Writes (v >> w) (bs ++ cs)
Writes-then v w bs cs hv hw pre at = rw (hv pre at) (
    hw (pre ++ bs) at
    ∙ ap (λ (l : List ℕ). (ok tt, record { bytes = l; at = at })) (append_assoc pre bs cs))

extend-Writes : (bs : List ℕ) → Writes (extend bs) bs
extend-Writes bs pre at = refl

write_u32-Writes : (n : ℕ) → Writes (write_u32 n) (le_bytes 4 n)
unfolding write_u32
write_u32-Writes n pre at = refl

write_count-Writes : (n : ℕ) → IsWord n → Writes (write_count n) (le_bytes 4 n)
unfolding write_count write_u32
write_count-Writes n fits pre at = let small : ltb n (2 ^ 32) ≡ true = ground arith in rw small refl

write_option-Writes : (o : Option ℕ) → Writes (write_option o) (option_bytes o)
unfolding write_option
write_option-Writes none pre at = write_u32-Writes 0 pre at
write_option-Writes (some n) pre at =
    Writes-then (write_u32 1) (write_u32 n) (le_bytes 4 1) (le_bytes 4 n) (write_u32-Writes 1)
      (write_u32-Writes n) pre at

write_string-Writes : (text : List ℕ) → IsText text → Writes (write_string text) (string_bytes text)
unfolding write_string
write_string-Writes text (valid, fits) =
    Writes-then (write_count (length text)) (extend text) (le_bytes 4 (length text)) text
      (write_count-Writes (length text) fits) (extend-Writes text)

module _ {A : Type 0} (one : A → Write) (bytes : A → List ℕ) (P : A → Type 0)
    (writes : (a : A) → P a → Writes (one a) (bytes a)) where
  write_each-Writes :
      (values : List A) → Each P values → Writes (write_each one values) (each_bytes bytes values)
  unfolding write_each each_bytes
  write_each-Writes [] v pre at =
      ap (λ (l : List ℕ). (ok tt, record { bytes = l; at = at })) (sym (append-nil pre))
  write_each-Writes (a ∷ values) (va, v) pre at =
      Writes-then (one a) (write_each one values) (bytes a) (each_bytes bytes values) (writes a va)
        (write_each-Writes values v) pre at

  write_many-Writes :
      (values : List A) → Many P values → Writes (write_many one values) (many_bytes bytes values)
  unfolding write_many
  write_many-Writes values (fits, v) =
      Writes-then (write_count (length values)) (write_each one values) (le_bytes 4 (length values))
        (each_bytes bytes values) (write_count-Writes (length values) fits)
        (write_each-Writes values v)

write_tagged : (tag n : ℕ) → Writes (write_u32 tag >> write_u32 n) (le_bytes 4 tag ++ le_bytes 4 n)
write_tagged tag n =
    Writes-then (write_u32 tag) (write_u32 n) (le_bytes 4 tag) (le_bytes 4 n) (write_u32-Writes tag)
      (write_u32-Writes n)

write_term-Writes : (t : Term) → IsTerm t → Writes (write_term t) (term_bytes t)
unfolding write_term
write_term-Writes (production n) v pre at = write_tagged 0 n pre at
write_term-Writes (literal text) v pre at =
    Writes-then (write_u32 1) (write_string text) (le_bytes 4 1) (string_bytes text)
      (write_u32-Writes 1) (write_string-Writes text v) pre at
write_term-Writes (token n) v pre at = write_tagged 2 n pre at
write_term-Writes (speech n) v pre at = write_tagged 3 n pre at
write_term-Writes star v pre at =
    write_u32-Writes 4 pre at
    ∙ ap (λ (l : List ℕ). (ok tt, record { bytes = pre ++ l; at = at }))
        (sym (append-nil (le_bytes 4 4)))
write_term-Writes (vocabulary n) v pre at = write_tagged 5 n pre at

write_element-Writes : (e : Element) → IsElement e → Writes (write_element e) (element_bytes e)
unfolding write_element
write_element-Writes e (vt, vc) =
    Writes-then (write_term e.term) (write_option e.capture) (term_bytes e.term)
      (option_bytes e.capture) (write_term-Writes e.term vt) (write_option-Writes e.capture)

write_rule-Writes : (r : Rule) → IsRule r → Writes (write_rule r) (rule_bytes r)
unfolding write_rule
write_rule-Writes r (vp, vm, vb, ve) =
    let badness : Write = write_u32 (word_of r.badness) >> write_many write_element r.elements in
    Writes-then (write_u32 r.production_slot) (write_option r.match_slot >> badness)
      (le_bytes 4 r.production_slot) _ (write_u32-Writes r.production_slot)
      (Writes-then (write_option r.match_slot) badness (option_bytes r.match_slot) _
        (write_option-Writes r.match_slot)
        (Writes-then (write_u32 (word_of r.badness)) (write_many write_element r.elements)
          (le_bytes 4 (word_of r.badness)) (many_bytes element_bytes r.elements)
          (write_u32-Writes (word_of r.badness))
          (write_many-Writes write_element element_bytes IsElement write_element-Writes r.elements
            ve)))

pub blob-Writes :
    (t : Tables)
    → AreTables t
    → blob t (record { bytes = []; at = 0 })
      ≡ (ok tt, record { bytes = magic ++ tables_bytes t; at = 0 })
unfolding blob
blob-Writes t v =
    let g = t.grammar in
    let w6 : Write = write_option g.token_list >> write_many write_rule g.rules in
    let w5 : Write = write_option g.last_token_index >> w6 in
    let w4 : Write = write_option g.first_token_index >> w5 in
    let w3 : Write = write_option g.badness_property >> w4 in
    let w2 : Write = write_many write_option g.productions >> w3 in
    let w1 : Write = write_many write_string t.literals >> w2 in
    Writes-then (extend magic) w1 magic _ (extend-Writes magic)
      (Writes-then (write_many write_string t.literals) w2 (many_bytes string_bytes t.literals) _
        (write_many-Writes write_string string_bytes IsText write_string-Writes t.literals
          v.literals)
        (Writes-then (write_many write_option g.productions) w3
          (many_bytes option_bytes g.productions) _
          (write_many-Writes write_option option_bytes IsOption (λ o _. write_option-Writes o)
            g.productions v.productions)
          (Writes-then (write_option g.badness_property) w4 (option_bytes g.badness_property) _
            (write_option-Writes g.badness_property)
            (Writes-then (write_option g.first_token_index) w5 (option_bytes g.first_token_index) _
              (write_option-Writes g.first_token_index)
              (Writes-then (write_option g.last_token_index) w6 (option_bytes g.last_token_index) _
                (write_option-Writes g.last_token_index)
                (Writes-then (write_option g.token_list) (write_many write_rule g.rules)
                  (option_bytes g.token_list) (many_bytes rule_bytes g.rules)
                  (write_option-Writes g.token_list)
                  (write_many-Writes write_rule rule_bytes IsRule write_rule-Writes g.rules
                    v.rules)))))))
      [] 0

-- Tables whose numbers and counts fit in a `u32`, whose badness fits in an `i32`, and whose texts are
-- UTF-8: writing them succeeds, and a blob that is shorter than `2 ^ 64` bytes decodes to the same
-- tables.
pub decode-blob :
    (t : Tables)
    → AreTables t
    → length (tables_bytes t) + 4 < 2 ^ 64
    → (w : Writer) × (blob t empty_writer ≡ (ok tt, w)) × (decode w.bytes ≡ ok t)
unfolding decode bytes_eq all_read
decode-blob t v short =
    let whole : length (magic ++ tables_bytes t) ≡ 4 + length (tables_bytes t) = omega arith in
    let read = read_tables-Reads t v magic [] (rw (append-nil (tables_bytes t)) (omega arith)) in
    let read' : read_tables (record { bytes = magic ++ tables_bytes t; at = 4 })
        ≡ (ok t, record { bytes = magic ++ tables_bytes t; at = 4 + length (tables_bytes t) }) =
      rw (append-nil (tables_bytes t)) at read in
    let end : (4 + length (tables_bytes t) == length (magic ++ tables_bytes t)) ≡ true =
      ground arith in
    (record { bytes = magic ++ tables_bytes t; at = 0 }, blob-Writes t v, rw (read', end) refl)
