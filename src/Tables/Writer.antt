-- ===== src/Tables/Writer.antt =====
-- crates/zeb-frontend/src/tables.rs: the writer of the tables. `blob` resolves the names of the
-- lowered grammar as it writes; here the tables come with their names resolved.
use zebulon_lang.Prelude.{
  ℕ, ◌-◌, ◌^◌, Option, none, some, List, [], ◌∷◌, ◌++◌, ltb, length, if◌then◌else◌, ok, err,
}
use zebulon_lang.Prelude.Exec.{Method, pure, ◌>>◌}
use zebulon_lang.Prelude.Bytes.{le_bytes}
use zebulon_lang.Prelude.Int.{ℤ, pos, negsuc}
use zebulon_lang.Tables.{
  magic, Term, production, literal, token, speech, star, vocabulary, Element, Rule, Tables,
}

-- `Diagnostic::resource`, at a position of the source.
pub data Diagnostic : Type 0 where
  resource : ℕ → Diagnostic

pub record Writer : Type 0 where
  pub bytes : List ℕ
  pub at : ℕ

abbrev pub Write : Type 0
Write = Method {0, 0, 0} Writer Diagnostic Unit

abbrev pub extend : List ℕ → Write
extend bytes w = (ok tt, record w { bytes = w.bytes ++ bytes })

unfoldable pub write_u32 : ℕ → Write
write_u32 value = extend (le_bytes 4 value)

unfoldable pub write_count : ℕ → Write
write_count value w = if ltb value (2 ^ 32) then write_u32 value w else (err (resource w.at), w)

unfoldable pub write_option : Option ℕ → Write
write_option none = write_u32 0
write_option (some value) = do write_u32 1; write_u32 value

unfoldable pub write_string : List ℕ → Write
write_string value = do write_count (length value); extend value

-- `for value in values { .. }`
unfoldable pub write_each : {A : Type 0} → (A → Write) → List A → Write
write_each one [] = pure tt
write_each one (value ∷ rest) = do one value; write_each one rest

unfoldable pub write_many : {A : Type 0} → (A → Write) → List A → Write
write_many one values = do write_count (length values); write_each one values

-- `badness as u32`
unfoldable pub word_of : ℤ → ℕ
word_of (pos n) = n
word_of (negsuc n) = 2 ^ 32 - n - 1

unfoldable pub write_term : Term → Write
write_term (production value) = do write_u32 0; write_u32 value
write_term (literal text) = do write_u32 1; write_string text
write_term (token value) = do write_u32 2; write_u32 value
write_term (speech value) = do write_u32 3; write_u32 value
write_term star = write_u32 4
write_term (vocabulary value) = do write_u32 5; write_u32 value

unfoldable pub write_element : Element → Write
write_element e = do write_term e.term; write_option e.capture

-- The position that a diagnostic would name, `w.at = rule.byte`, stays as it is: tables have none.
unfoldable pub write_rule : Rule → Write
write_rule r = do
  write_u32 r.production_slot
  write_option r.match_slot
  write_u32 (word_of r.badness)
  write_many write_element r.elements

unfoldable pub blob : Tables → Write
blob t = do
  extend magic
  write_many write_string t.literals
  write_many write_option t.grammar.productions
  write_option t.grammar.badness_property
  write_option t.grammar.first_token_index
  write_option t.grammar.last_token_index
  write_option t.grammar.token_list
  write_many write_rule t.grammar.rules

abbrev pub empty_writer : Writer
empty_writer = record { bytes = []; at = 0 }
