-- ===== src/Save.antt =====
-- crates/zeb-runtime/src/save.rs: the `Writer` and the `Reader` of a world image. A text is its
-- bytes; `usize` has 64 bits, so the conversions between it and `u64` do not fail.
mod Tests
pub mod RoundTrip
use zebulon_lang.Prelude.{
  ℕ, zero, suc, ◌+◌, ◌-◌, ◌*◌, Bool, true, false, ◌||◌, List, [], ◌∷◌, ◌++◌, ltb, leb, ◌==◌, length,
  take, drop, if◌then◌else◌, Result, ok, err,
}
use zebulon_lang.Prelude.Exec.{Method, pure, raise, asks, ◌>>=◌, ◌>>◌}
use zebulon_lang.Prelude.Codec
use zebulon_lang.Prelude.Codec.{Reader}
use zebulon_lang.Prelude.Bytes.{usize_mod, le_bytes, of_le_bytes, is_utf8}
use zebulon_lang.Errors.{Error, Answer, resource_limit, invalid_argument}

abbrev pub max_bytes : ℕ
max_bytes = 32 * 1024 * 1024

pub record Writer : Type 0 where
  pub bytes : List ℕ

abbrev pub Write : Type 0
Write = Method Writer Error Unit

-- `Writer::new`
abbrev pub empty_writer : Writer
empty_writer = record { bytes = [] }

unfoldable pub write_raw : List ℕ → Write
write_raw bytes w =
    if ltb (max_bytes - length w.bytes) (length bytes)
    then (err resource_limit, w)
    else (ok tt, record w { bytes = w.bytes ++ bytes })

unfoldable pub write_word : ℕ → Write
write_word n = write_raw (le_bytes 8 n)

unfoldable pub write_count : ℕ → Write
write_count n = write_word n

unfoldable pub write_text : List ℕ → Write
write_text text = do write_count (length text); write_raw text

abbrev pub Read : Type 0 → Type 0
Read A = Codec.Read Error A

-- `Reader::new`
unfoldable pub new_reader : List ℕ → Answer Reader
new_reader bytes =
    if ltb max_bytes (length bytes)
    then err resource_limit
    else ok (record { bytes = bytes; at = 0 })

-- `checked_add`, then `get(at..end)`.
unfoldable pub read_raw : ℕ → Read (List ℕ)
read_raw n r =
    if leb usize_mod (r.at + n)
    then (err invalid_argument, r)
    else if ltb (length r.bytes) (r.at + n)
    then (err invalid_argument, r)
    else (ok (take n (drop r.at r.bytes)), record r { at = r.at + n })

unfoldable pub read_word : Read ℕ
read_word = do bytes ← read_raw 8; pure (of_le_bytes bytes)

unfoldable pub count_within : ℕ → ℕ → Read ℕ
count_within limit n r =
    if ltb limit n || ltb (length r.bytes - r.at) n then (err resource_limit, r) else (ok n, r)

unfoldable pub read_count : ℕ → Read ℕ
unfolding count_within
read_count limit = do n ← read_word; count_within limit n

flag_of : ℕ → Read Bool
flag_of zero = pure false
flag_of (suc zero) = pure true
flag_of (suc (suc _)) = raise invalid_argument

unfoldable pub read_flag : Read Bool
unfolding flag_of
read_flag = do n ← read_word; flag_of n

unfoldable pub read_text : ℕ → Read (List ℕ)
read_text limit = do
  len ← read_count limit
  text ← read_raw len
  if is_utf8 text then pure text else raise invalid_argument

unfoldable pub finished : Reader → Bool
finished r = r.at == length r.bytes
