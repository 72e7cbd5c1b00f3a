-- ===== src/Tables/Tests.antt =====
-- tables.rs: the tables of a small grammar.
use zebulon_lang.Prelude.{
  ◌≢◌, ◌⊎◌, ℕ, zero, suc, ◌≡◌, refl, none, some, List, [], ◌∷◌, arith, ok, err,
}
use zebulon_lang.Prelude.Bytes.{is_utf8, le_bytes, of_le_bytes}
use zebulon_lang.Prelude.Int.{negsuc, fits_i32}
use zebulon_lang.Tables.{
  Tables, Rule, conflict, decode, literal, star, bytes_eq, all_read, read_tables, read_many,
  read_string, read_u32, read_slice, read_each, read_option, option_of,
}
use zebulon_lang.Tables.Writer.{Writer, blob, empty_writer}
use zebulon_lang.Tables.RoundTrip.{AreTables, each_bytes}
use zebulon_lang.Tables.Install.{install, install-install, fallback}
use zebulon_lang.Tables.Wrote.{decode-blob}

-- `get *`, with badness -1.
abbrev get_rule : Rule
get_rule = record {
  production_slot = 2;
  match_slot = some 4;
  badness = negsuc 0;
  elements =
      record { term = literal (b'g' ∷ b'e' ∷ b't' ∷ []); capture = some 30 }
      ∷ record { term = star; capture = none }
      ∷ [];
}

abbrev tables : Tables
tables = record {
  literals = (b'h' ∷ b'i' ∷ []) ∷ [];
  grammar = record {
    productions = some 0 ∷ none ∷ [];
    rules = get_rule ∷ [];
    badness_property = none;
    first_token_index = some 20;
    last_token_index = some 21;
    token_list = none;
  };
}

tables-AreTables : AreTables tables
unfolding is_utf8 fits_i32
tables-AreTables = record {
  literals = (omega arith, ((refl, omega arith), tt));
  productions = (omega arith, (omega arith, (tt, tt)));
  badness = tt;
  first = omega arith;
  last = omega arith;
  tokens = tt;
  rules = (
    omega arith,
    (
      (
        omega arith,
        omega arith,
        refl,
        (omega arith, (((refl, omega arith), omega arith), ((tt, tt), tt))),
      ),
      tt,
    ),
  );
}

decode-blob_example :
    (w : Writer) × (blob tables empty_writer ≡ (ok tt, w)) × (decode w.bytes ≡ ok tables)
unfolding each_bytes le_bytes
decode-blob_example = decode-blob tables tables-AreTables (omega arith)

-- The blob of no tables, and that of one empty literal.
abbrev zeros : ℕ → List ℕ
zeros zero = []
zeros (suc n) = 0 ∷ 0 ∷ 0 ∷ 0 ∷ zeros n

abbrev empty_blob : List ℕ
empty_blob = b'Z' ∷ b'T' ∷ b'B' ∷ b'1' ∷ zeros 7

abbrev one_blob : List ℕ
one_blob = b'Z' ∷ b'T' ∷ b'B' ∷ b'1' ∷ 1 ∷ 0 ∷ 0 ∷ 0 ∷ zeros 7

abbrev one_literal : Tables
one_literal = record fallback { literals = [] ∷ [] }

empty_blob-decode : decode empty_blob ≡ ok fallback
unfolding decode bytes_eq all_read read_tables read_many read_u32 read_slice read_each of_le_bytes
    read_string is_utf8 read_option option_of
empty_blob-decode = refl

one_blob-decode : decode one_blob ≡ ok one_literal
unfolding decode bytes_eq all_read read_tables read_many read_u32 read_slice read_each of_le_bytes
    read_string is_utf8 read_option option_of
one_blob-decode = refl

install-install_example :
    (install empty_blob none ≡ (ok tt, some fallback))
    × (((fallback ≡ one_literal) × (install one_blob (some fallback) ≡ (ok tt, some fallback)))
        ⊎ ((fallback ≢ one_literal)
            × (install one_blob (some fallback) ≡ (err conflict, some fallback))))
install-install_example =
    install-install empty_blob one_blob fallback one_literal empty_blob-decode one_blob-decode
