-- ===== src/Save/Tests.antt =====
-- save.rs: one image, written and read.
use zebulon_lang.Prelude.{◌≡◌, refl, true, List, [], ◌∷◌, arith, ok}
use zebulon_lang.Prelude.Bytes.{is_utf8, le_bytes}
use zebulon_lang.Prelude.Codec.{Reader}
use zebulon_lang.Save.{Writer, empty_writer, new_reader, finished}
use zebulon_lang.Save.RoundTrip.{
  Item, word, flag, text, words, Shape, a_word, a_flag, a_text, some_words, write_items, read_items,
  image, item_bytes, bytes_of_words, read_items-write_items,
}

-- A version, a flag, a name, and three references.
abbrev items : List Item
items = word 1 ∷ flag true ∷ text (b'h' ∷ b'a' ∷ b't' ∷ []) ∷ words (4 ∷ 5 ∷ 6 ∷ []) ∷ []

abbrev shapes : List Shape
shapes = a_word ∷ a_flag ∷ a_text 16 ∷ some_words 100 ∷ []

read_items_example :
    (w : Writer) × (r u : Reader) × (write_items items empty_writer ≡ (ok tt, w))
    × (new_reader w.bytes ≡ ok r)
    × (read_items shapes r ≡ (ok items, u))
    × (finished u ≡ true)
unfolding is_utf8 image item_bytes bytes_of_words le_bytes
read_items_example =
    read_items-write_items shapes items
      (
        omega arith,
        (
          tt,
          (
            (refl, omega arith),
            ((((omega arith), (omega arith, (omega arith, tt))), omega arith), tt),
          ),
        ),
      )
      (omega arith)
