-- ===== src/Save/RoundTrip.antt =====
-- save.rs: what a `Writer` has written, a `Reader` reads back.
use zebulon_lang.Prelude.{
  ℕ, zero, suc, ◌+◌, ◌*◌, ◌-◌, ◌^◌, ◌≤◌, ◌<◌, ◌≡◌, refl, sym, ap, ◌∙◌, Bool, true, false, List, [],
  ◌∷◌, ◌++◌, append_assoc, append-nil, arith, ltb, leb, length, length-append, take, drop,
  drop-append, take-append, ok, if◌then◌else◌, ==_self,
}
use zebulon_lang.Prelude.Exec.{pure, raise, ◌>>=◌, ◌>>◌}
use zebulon_lang.Prelude.Bytes.{le_bytes, length-le_bytes, of_le_bytes-le_bytes, is_utf8}
use zebulon_lang.Prelude.Codec.{Reader, Reads, Reads-pure, Reads-then, Reads-map, Reads-check}
use zebulon_lang.Errors.{invalid_argument}
use zebulon_lang.Save.{
  Writer, Write, empty_writer, write_raw, write_word, write_count, write_text, Reader, Read,
  new_reader, read_raw, read_word, read_count, count_within, read_flag, read_text, finished,
  max_bytes,
}

-- The items of an image.
pub data Item : Type 0 where
  word : ℕ → Item
  flag : Bool → Item
  text : List ℕ → Item
  words : List ℕ → Item

-- How an item is read: with the limit of its count.
pub data Shape : Type 0 where
  a_word a_flag : Shape
  a_text some_words : ℕ → Shape

abbrev pub flag_word : Bool → ℕ
flag_word false = 0
flag_word true = 1

unfoldable pub write_words : List ℕ → Write
write_words [] = pure tt
write_words (n ∷ ns) = do write_word n; write_words ns

unfoldable pub write_item : Item → Write
write_item (word n) = write_word n
write_item (flag b) = write_word (flag_word b)
write_item (text bs) = write_text bs
write_item (words ns) = do write_count (length ns); write_words ns

unfoldable pub write_items : List Item → Write
write_items [] = pure tt
write_items (i ∷ is) = do write_item i; write_items is

unfoldable pub read_words : ℕ → Read (List ℕ)
read_words zero = pure []
read_words (suc k) = do n ← read_word; ns ← read_words k; pure (n ∷ ns)

unfoldable pub read_item : Shape → Read Item
read_item a_word = do n ← read_word; pure (word n)
read_item a_flag = do b ← read_flag; pure (flag b)
read_item (a_text limit) = do bs ← read_text limit; pure (text bs)
read_item (some_words limit) = do k ← read_count limit; ns ← read_words k; pure (words ns)

unfoldable pub read_items : List Shape → Read (List Item)
read_items [] = pure []
read_items (sh ∷ shs) = do i ← read_item sh; is ← read_items shs; pure (i ∷ is)

-- The bytes of an item.
unfoldable pub bytes_of_words : List ℕ → List ℕ
bytes_of_words [] = []
bytes_of_words (n ∷ ns) = le_bytes 8 n ++ bytes_of_words ns

unfoldable pub item_bytes : Item → List ℕ
item_bytes (word n) = le_bytes 8 n
item_bytes (flag b) = le_bytes 8 (flag_word b)
item_bytes (text bs) = le_bytes 8 (length bs) ++ bs
item_bytes (words ns) = le_bytes 8 (length ns) ++ bytes_of_words ns

unfoldable pub image : List Item → List ℕ
image [] = []
image (i ∷ is) = item_bytes i ++ image is

-- The words fit in 64 bits, the texts are UTF-8, and the counts are within their limits.
abbrev pub AreWords : List ℕ → Type 0
AreWords [] = Unit
AreWords (n ∷ ns) = (n < 2 ^ 64) × AreWords ns

abbrev pub Fits : Shape → Item → Type 0
Fits a_word (word n) = n < 2 ^ 64
Fits a_flag (flag b) = Unit
Fits (a_text limit) (text bs) = (is_utf8 bs ≡ true) × (length bs ≤ limit)
Fits (some_words limit) (words ns) = AreWords ns × (length ns ≤ limit)
Fits _ _ = 1 ≤ 0

abbrev pub AllFit : List Shape → List Item → Type 0
AllFit [] [] = Unit
AllFit (sh ∷ shs) (i ∷ is) = Fits sh i × AllFit shs is
AllFit _ _ = 1 ≤ 0

-- Writing bytes for which there is room.
write_raw_lem :
    (bs pre : List ℕ)
    → length pre + length bs ≤ max_bytes
    → write_raw bs (record { bytes = pre }) ≡ (ok tt, record { bytes = pre ++ bs })
unfolding write_raw
write_raw_lem bs pre h =
    let room : ltb (max_bytes - length pre) (length bs) ≡ false = ground arith in rw room refl

-- Reading the bytes at the seam of two lists.
read_raw_lem :
    (pre bs post : List ℕ)
    → length (pre ++ (bs ++ post)) ≤ max_bytes
    → read_raw (length bs) (record { bytes = pre ++ (bs ++ post); at = length pre })
      ≡ (ok bs, record { bytes = pre ++ (bs ++ post); at = length pre + length bs })
unfolding read_raw
read_raw_lem pre bs post h =
    let size = length-append pre (bs ++ post) in
    let size' = length-append bs post in
    let no_overflow : leb (2 ^ 64) (length pre + length bs) ≡ false = ground arith in
    let inside : ltb (length (pre ++ (bs ++ post))) (length pre + length bs) ≡ false =
      ground arith in
    let slice : take (length bs) (drop (length pre) (pre ++ (bs ++ post))) ≡ bs =
      rw (drop-append pre (bs ++ post)) (take-append bs post) in
    rw (no_overflow, inside, slice) refl

-- A call appends these bytes, where there is room.
abbrev Writes : Write → List ℕ → Type 0
Writes w bs =
    (pre : List ℕ)
    → length pre + length bs ≤ max_bytes
    → w (record { bytes = pre }) ≡ (ok tt, record { bytes = pre ++ bs })

Writes-then :
    (v w : Write) (bs cs : List ℕ) → Writes v bs → Writes w cs → Writes (v >> w) (bs ++ cs)
Writes-then v w bs cs hv hw pre h =
    let size = length-append bs cs in
    let size' = length-append pre bs in
    rw (hv pre (omega arith)) (
      hw (pre ++ bs) (omega arith)
      ∙ ap (λ l. (ok tt, record { bytes = l })) (append_assoc pre bs cs))

read_word-Reads : (n : ℕ) → n < 2 ^ 64 → Reads max_bytes read_word (le_bytes 8 n) n
unfolding read_word
read_word-Reads n fits pre post h =
    let eight = length-le_bytes 8 n in
    let raw : read_raw 8 (record { bytes = pre ++ (le_bytes 8 n ++ post); at = length pre }) ≡ (
      ok (le_bytes 8 n),
      record { bytes = pre ++ (le_bytes 8 n ++ post); at = length pre + length (le_bytes 8 n) },
    ) =
      ap (λ k. read_raw k (record { bytes = pre ++ (le_bytes 8 n ++ post); at = length pre }))
        (sym eight)
      ∙ read_raw_lem pre (le_bytes 8 n) post h in
    rw (raw, of_le_bytes-le_bytes 8 n fits) refl

-- A count, and the bytes that it counts.
read_count-Reads :
    {B : Type 0} (limit n : ℕ) (f : ℕ → Read B) (cs : List ℕ) (b : B)
    → n ≤ limit
    → n ≤ length cs
    → Reads max_bytes (f n) cs b
    → Reads max_bytes (read_count limit >>= f) (le_bytes 8 n ++ cs) b
unfolding read_count count_within
read_count-Reads {B} limit n f cs b within there hf pre₀ post₀ h₀ =
    let whole = length-append pre₀ ((le_bytes 8 n ++ cs) ++ post₀) in
    let whole' = length-append (le_bytes 8 n ++ cs) post₀ in
    let whole'' = length-append (le_bytes 8 n) cs in
    let fits : n < 2 ^ 64 = omega arith in
    let g : ℕ → Read B = λ k. count_within limit k >>= f in
    Reads-check max_bytes read_word (count_within limit) f (le_bytes 8 n ++ cs) b
      (Reads-then max_bytes read_word g (le_bytes 8 n) cs n b (read_word-Reads n fits)
        (λ pre post h.
          let size = length-append pre (cs ++ post) in
          let size' = length-append cs post in
          let few : ltb limit n ≡ false = ground arith in
          let inside : ltb (length (pre ++ (cs ++ post)) - length pre) n ≡ false = ground arith in
          rw (few, inside) (hf pre post h)))
      pre₀ post₀ h₀

-- The words of a list, one after the other.
read_words-Reads :
    (ns : List ℕ) → AreWords ns → Reads max_bytes (read_words (length ns)) (bytes_of_words ns) ns
unfolding read_words bytes_of_words
read_words-Reads [] v = Reads-pure max_bytes []
read_words-Reads (n ∷ ns) (vn, v) =
    Reads-then max_bytes read_word (λ m. read_words (length ns) >>= λ ms. pure (m ∷ ms))
      (le_bytes 8 n) (bytes_of_words ns) n (n ∷ ns) (read_word-Reads n vn)
      (Reads-map max_bytes (read_words (length ns)) (λ ms. n ∷ ms) (bytes_of_words ns) ns
        (read_words-Reads ns v))

length-bytes_of_words : (ns : List ℕ) → length (bytes_of_words ns) ≡ 8 * length ns
unfolding bytes_of_words
length-bytes_of_words [] = omega arith
length-bytes_of_words (n ∷ ns) = omega (
  arith,
  length-append (le_bytes 8 n) (bytes_of_words ns),
  length-le_bytes 8 n,
  length-bytes_of_words ns,
)

read_text-Reads :
    (limit : ℕ) (bs : List ℕ)
    → is_utf8 bs ≡ true
    → length bs ≤ limit
    → Reads max_bytes (read_text limit) (le_bytes 8 (length bs) ++ bs) bs
unfolding read_text
read_text-Reads limit bs valid within =
    read_count-Reads limit (length bs)
      (λ len. read_raw len >>= λ text. if is_utf8 text then pure text else raise invalid_argument)
      bs bs within (omega arith) (λ pre post h. rw (read_raw_lem pre bs post h, valid) refl)

read_flag-Reads : (b : Bool) → Reads max_bytes read_flag (le_bytes 8 (flag_word b)) b
unfolding read_flag
read_flag-Reads false pre post h = rw (read_word-Reads 0 (omega arith) pre post h) refl
read_flag-Reads true pre post h = rw (read_word-Reads 1 (omega arith) pre post h) refl

read_item-Reads :
    (sh : Shape) (i : Item) → Fits sh i → Reads max_bytes (read_item sh) (item_bytes i) i
unfolding read_item item_bytes
read_item-Reads a_word (word n) v =
    Reads-map max_bytes read_word (λ n. word n) (le_bytes 8 n) n (read_word-Reads n v)
read_item-Reads a_flag (flag b) v =
    Reads-map max_bytes read_flag (λ b. flag b) (le_bytes 8 (flag_word b)) b (read_flag-Reads b)
read_item-Reads (a_text limit) (text bs) (valid, within) =
    Reads-map max_bytes (read_text limit) (λ bs. text bs) (le_bytes 8 (length bs) ++ bs) bs
      (read_text-Reads limit bs valid within)
read_item-Reads (some_words limit) (words ns) (v, within) =
    read_count-Reads limit (length ns) (λ k. read_words k >>= λ ms. pure (words ms))
      (bytes_of_words ns) (words ns) within (omega (arith, length-bytes_of_words ns))
      (Reads-map max_bytes (read_words (length ns)) (λ ms. words ms) (bytes_of_words ns) ns
        (read_words-Reads ns v))
read_item-Reads sh i v = absurd (omega arith)

read_items-Reads :
    (shs : List Shape) (is : List Item)
    → AllFit shs is
    → Reads max_bytes (read_items shs) (image is) is
unfolding read_items image
read_items-Reads [] [] v = Reads-pure max_bytes []
read_items-Reads (sh ∷ shs) (i ∷ is) (vi, v) =
    Reads-then max_bytes (read_item sh) (λ j. read_items shs >>= λ js. pure (j ∷ js)) (item_bytes i)
      (image is) i (i ∷ is) (read_item-Reads sh i vi)
      (Reads-map max_bytes (read_items shs) (λ js. i ∷ js) (image is) is
        (read_items-Reads shs is v))
read_items-Reads shs is v = absurd (omega arith)

write_words-Writes : (ns : List ℕ) → Writes (write_words ns) (bytes_of_words ns)
unfolding write_words bytes_of_words write_word
write_words-Writes [] pre h = ap (λ l. (ok tt, record { bytes = l })) (sym (append-nil pre))
write_words-Writes (n ∷ ns) pre h =
    Writes-then (write_word n) (write_words ns) (le_bytes 8 n) (bytes_of_words ns)
      (write_raw_lem (le_bytes 8 n)) (write_words-Writes ns) pre h

write_item-Writes : (i : Item) → Writes (write_item i) (item_bytes i)
unfolding write_item item_bytes write_word write_count write_text
write_item-Writes (word n) = write_raw_lem (le_bytes 8 n)
write_item-Writes (flag b) = write_raw_lem (le_bytes 8 (flag_word b))
write_item-Writes (text bs) =
    Writes-then (write_count (length bs)) (write_raw bs) (le_bytes 8 (length bs)) bs
      (write_raw_lem (le_bytes 8 (length bs))) (write_raw_lem bs)
write_item-Writes (words ns) =
    Writes-then (write_count (length ns)) (write_words ns) (le_bytes 8 (length ns))
      (bytes_of_words ns) (write_raw_lem (le_bytes 8 (length ns))) (write_words-Writes ns)

write_items-Writes : (is : List Item) → Writes (write_items is) (image is)
unfolding write_items image
write_items-Writes [] pre h = ap (λ l. (ok tt, record { bytes = l })) (sym (append-nil pre))
write_items-Writes (i ∷ is) pre h =
    Writes-then (write_item i) (write_items is) (item_bytes i) (image is) (write_item-Writes i)
      (write_items-Writes is) pre h

-- Items whose words fit in 64 bits, whose texts are UTF-8, whose counts are within the limits they
-- are read with, and whose bytes are no more than an image may have: writing them to an empty writer
-- succeeds, its bytes open as a reader, reading the same shapes gives the same items, and the reader
-- is then finished.
pub read_items-write_items :
    (shs : List Shape) (is : List Item)
    → AllFit shs is
    → length (image is) ≤ max_bytes
    → (w : Writer) × (r u : Reader) × (write_items is empty_writer ≡ (ok tt, w))
      × (new_reader w.bytes ≡ ok r)
      × (read_items shs r ≡ (ok is, u))
      × (finished u ≡ true)
unfolding new_reader finished
read_items-write_items shs is v short =
    let open_it : ltb max_bytes (length (image is)) ≡ false = ground arith in
    let none_behind = append-nil (image is) in
    let read = read_items-Reads shs is v [] [] (rw none_behind short) in
    (
      record { bytes = image is },
      record { bytes = image is; at = 0 },
      record { bytes = image is; at = length (image is) },
      write_items-Writes is [] (omega arith),
      rw open_it refl,
      rw none_behind at read
          ∙ ap (λ (k : ℕ). (ok is, record { bytes = image is; at = k })) (omega arith),
      ==_self (length (image is)),
    )
