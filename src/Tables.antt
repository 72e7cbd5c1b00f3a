-- ===== src/Tables.antt =====
-- crates/zeb-runtime/src/tables.rs: the grammar and literal tables of a program, decoded from bytes
-- and installed once in a process. A text is its bytes.
pub mod Writer
pub mod RoundTrip
pub mod Same
pub mod Install
pub mod Wrote
mod Tests
use zebulon_lang.Prelude.{
  ℕ, zero, suc, ◌+◌, ◌-◌, ◌^◌, Bool, true, false, ◌&&◌, Option, none, some, List, [], ◌∷◌, ltb, leb,
  ◌==◌, length, take, drop, if◌then◌else◌, Result, ok, err,
}
use zebulon_lang.Prelude.Exec.{Method, pure, raise, ◌>>=◌, ◌>>◌}
use zebulon_lang.Prelude.Codec
use zebulon_lang.Prelude.Codec.{Reader}
use zebulon_lang.Prelude.Bytes.{usize_mod, of_le_bytes, is_utf8}
use zebulon_lang.Prelude.Int.{ℤ, pos, negsuc}

-- b"ZTB1"
abbrev pub magic : List ℕ
magic = b'Z' ∷ b'T' ∷ b'B' ∷ b'1' ∷ []

pub data Fault : Type 0 where
  bad_magic truncated malformed conflict : Fault

pub data Term : Type 0 where
  production : ℕ → Term
  literal : List ℕ → Term
  token : ℕ → Term
  speech : ℕ → Term
  star : Term
  vocabulary : ℕ → Term

pub record Element : Type 0 where
  pub term : Term
  pub capture : Option ℕ

pub record Rule : Type 0 where
  pub production_slot : ℕ
  pub match_slot : Option ℕ
  pub badness : ℤ
  pub elements : List Element

pub record Grammar : Type 0 where
  pub productions : List (Option ℕ)
  pub rules : List Rule
  pub badness_property : Option ℕ
  pub first_token_index : Option ℕ
  pub last_token_index : Option ℕ
  pub token_list : Option ℕ

pub record Tables : Type 0 where
  pub literals : List (List ℕ)
  pub grammar : Grammar

abbrev pub Read : Type 0 → Type 0
Read A = Codec.Read Fault A

-- `checked_add`, then `get(at..end)`.
unfoldable pub read_slice : ℕ → Read (List ℕ)
read_slice n r =
    if leb usize_mod (r.at + n)
    then (err truncated, r)
    else if ltb (length r.bytes) (r.at + n)
    then (err truncated, r)
    else (ok (take n (drop r.at r.bytes)), record r { at = r.at + n })

unfoldable pub read_u32 : Read ℕ
read_u32 = do bytes ← read_slice 4; pure (of_le_bytes bytes)

unfoldable pub option_of : ℕ → Read (Option ℕ)
option_of zero = pure none
option_of (suc zero) = do value ← read_u32; pure (some value)
option_of (suc (suc _)) = raise malformed

unfoldable pub read_option : Read (Option ℕ)
read_option = do tag ← read_u32; option_of tag

unfoldable pub read_string : Read (List ℕ)
read_string = do
  len ← read_u32
  text ← read_slice len
  if is_utf8 text then pure text else raise malformed

-- `for _ in 0..count { values.push(..) }`
unfoldable pub read_each : {A : Type 0} → Read A → ℕ → Read (List A)
read_each one zero = pure []
read_each one (suc n) = do value ← one; rest ← read_each one n; pure (value ∷ rest)

unfoldable pub read_many : {A : Type 0} → Read A → Read (List A)
read_many one = do count ← read_u32; read_each one count

-- `word as i32`
unfoldable pub signed32 : ℕ → ℤ
signed32 w = if ltb w (2 ^ 31) then pos w else negsuc (2 ^ 32 - w - 1)

unfoldable pub term_of : ℕ → Read Term
term_of tag =
    if tag == 0
    then (do value ← read_u32; pure (production value))
    else if tag == 1
    then (do text ← read_string; pure (literal text))
    else if tag == 2
    then (do value ← read_u32; pure (token value))
    else if tag == 3
    then (do value ← read_u32; pure (speech value))
    else if tag == 4
    then pure star
    else if tag == 5
    then (do value ← read_u32; pure (vocabulary value))
    else raise malformed

unfoldable pub read_element : Read Element
read_element = do
  tag ← read_u32
  term ← term_of tag
  capture ← read_option
  pure (record { term = term; capture = capture })

unfoldable pub read_rule : Read Rule
read_rule = do
  slot ← read_u32
  match_slot ← read_option
  badness ← read_u32
  elements ← read_many read_element
  pure (record {
    production_slot = slot;
    match_slot = match_slot;
    badness = signed32 badness;
    elements = elements;
  })

unfoldable pub read_tables : Read Tables
read_tables = do
  literals ← read_many read_string
  productions ← read_many read_option
  badness ← read_option
  first_token_index ← read_option
  last_token_index ← read_option
  token_list ← read_option
  rules ← read_many read_rule
  pure (record {
    literals = literals;
    grammar = record {
      productions = productions;
      rules = rules;
      badness_property = badness;
      first_token_index = first_token_index;
      last_token_index = last_token_index;
      token_list = token_list;
    };
  })

-- `[u8] == [u8]`
unfoldable pub bytes_eq : List ℕ → List ℕ → Bool
bytes_eq [] [] = true
bytes_eq (a ∷ xs) (b ∷ bs) = a == b && bytes_eq xs bs
bytes_eq _ _ = false

-- Trailing bytes are refused.
unfoldable pub all_read : Result Fault Tables × Reader → Result Fault Tables
all_read (err e, r) = err e
all_read (ok tables, r) = if r.at == length r.bytes then ok tables else err malformed

unfoldable pub decode : List ℕ → Result Fault Tables
decode bytes =
    if bytes_eq (take 4 bytes) magic
    then all_read (read_tables (record { bytes = bytes; at = 4 }))
    else err bad_magic
