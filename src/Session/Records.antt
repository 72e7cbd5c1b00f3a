-- ===== src/Session/Records.antt =====
-- session.rs: the event records that the byte stream stands for, and the walk that finds the last.
use zebulon_lang.Prelude.{
  ℕ, zero, suc, ◌+◌, ◌-◌, ◌*◌, ◌/◌, ◌^◌, ◌≤◌, ◌<◌, ◌≡◌, refl, sym, ap, ◌∙◌, true, false, Option,
  none, some, List, [], ◌∷◌, ◌++◌, append_assoc, append-nil, ◌==◌, leb, arith, length, take,
  replicate, length-append, length-replicate, drop-append, take-append,
}
use zebulon_lang.Prelude.Bytes.{le_bytes, of_le_bytes, length-le_bytes, of_le_bytes-le_bytes}
use zebulon_lang.Session.Events.{div_ceil, read_word, last_from, last_event, value_bytes}

-- What one event says: its id, the entities that it concerns, and tagged values.
pub record Record : Type 0 where
  pub id : List ℕ
  pub subjects : List ℕ
  pub values : List (ℕ × List ℕ)

unfoldable pub words_of : List ℕ → List ℕ
words_of [] = []
words_of (w ∷ ws) = le_bytes 8 w ++ words_of ws

unfoldable pub values_of : List (ℕ × List ℕ) → List ℕ
values_of [] = []
values_of ((tag, bytes) ∷ vs) = value_bytes tag bytes ++ values_of vs

-- A record with no values has no count of them either.
unfoldable pub value_part : List (ℕ × List ℕ) → List ℕ
value_part [] = []
value_part (v ∷ vs) = le_bytes 8 (length (v ∷ vs)) ++ values_of (v ∷ vs)

-- A list of bytes with zeros up to a whole number of words.
abbrev pub padded : List ℕ → List ℕ
padded bytes = bytes ++ replicate (div_ceil (length bytes) * 8 - length bytes) 0

-- The record after its first word, which says how many words the record has.
unfoldable pub body : Record → List ℕ
body r =
    le_bytes 8 (length r.id)
    ++ (padded r.id
        ++ (le_bytes 8 (length r.subjects) ++ (words_of r.subjects ++ value_part r.values)))

unfoldable pub encode : Record → List ℕ
encode r = le_bytes 8 (1 + length (body r) / 8) ++ body r

unfoldable pub stream : List Record → List ℕ
stream [] = []
stream (r ∷ rs) = encode r ++ stream rs

pub stream-snoc : (rs : List Record) (r : Record) → stream (rs ++ r ∷ []) ≡ stream rs ++ encode r
unfolding stream
stream-snoc [] r = append-nil (encode r)
stream-snoc (q ∷ rs) r =
    ap (λ l. encode q ++ l) (stream-snoc rs r)
    ∙ sym (append_assoc (encode q) (stream rs) (encode r))

-- The word that stands at the seam of two lists.
pub read_word-append :
    (pre : List ℕ) (n : ℕ) (post : List ℕ)
    → n < 2 ^ 64
    → read_word (pre ++ (le_bytes 8 n ++ post)) (length pre) ≡ n
unfolding read_word
read_word-append pre n post h =
    let here = ap (λ l. of_le_bytes (take 8 l)) (drop-append pre (le_bytes 8 n ++ post)) in
    let word =
      ap (λ k. of_le_bytes (take k (le_bytes 8 n ++ post))) (sym (length-le_bytes 8 n))
      ∙ ap of_le_bytes (take-append (le_bytes 8 n) post) in
    here ∙ word ∙ of_le_bytes-le_bytes 8 n h

pub length-words_of : (ws : List ℕ) → length (words_of ws) ≡ 8 * length ws
unfolding words_of
length-words_of [] = omega arith
length-words_of (w ∷ ws) = simp (length-append, length-le_bytes) (omega (arith, length-words_of ws))

-- The words of some values.
abbrev pub count_words : List (ℕ × List ℕ) → ℕ
count_words [] = 0
count_words ((tag, bytes) ∷ vs) = 2 + div_ceil (length bytes) + count_words vs

pub length-value_bytes :
    (tag : ℕ) (bytes : List ℕ) → length (value_bytes tag bytes) ≡ 8 * (2 + div_ceil (length bytes))
unfolding value_bytes
length-value_bytes tag bytes = simp (length-append, length-le_bytes, length-replicate) (omega arith)

pub length-values_of : (vs : List (ℕ × List ℕ)) → length (values_of vs) ≡ 8 * count_words vs
unfolding values_of
length-values_of [] = omega arith
length-values_of ((tag, bytes) ∷ vs) =
    simp length-append (omega (arith, length-values_of vs, length-value_bytes tag bytes))

abbrev pub value_words : List (ℕ × List ℕ) → ℕ
value_words [] = 0
value_words (v ∷ vs) = 1 + count_words (v ∷ vs)

length-value_part : (vs : List (ℕ × List ℕ)) → length (value_part vs) ≡ 8 * value_words vs
unfolding value_part
length-value_part [] = omega arith
length-value_part ((tag, bytes) ∷ vs) =
    simp (length-append, length-le_bytes) (omega (arith, length-values_of ((tag, bytes) ∷ vs)))

-- The words of a record's body.
abbrev pub body_words : Record → ℕ
body_words r = 2 + div_ceil (length r.id) + length r.subjects + value_words r.values

pub length-body : (r : Record) → length (body r) ≡ 8 * body_words r
unfolding body
length-body r =
    simp (length-append, length-le_bytes, length-replicate)
      (omega (arith, length-words_of r.subjects, length-value_part r.values))

pub length-encode : (r : Record) → length (encode r) ≡ 8 * (1 + body_words r)
unfolding encode
length-encode r = simp (length-append, length-le_bytes) (omega (arith, length-body r))

last_from-step :
    (fuel : ℕ) (events : List ℕ) (at : ℕ) (previous : Option ℕ)
    → leb (at + 8) (length events) ≡ true
    → (read_word events at == 0) ≡ false
    → last_from (suc fuel) events at previous
      ≡ last_from fuel events (at + read_word events at * 8) (some at)
unfolding last_from
last_from-step fuel events at previous inside some_words =
    rw (inside, last_from) (rw some_words refl)

last_from-stop :
    (fuel : ℕ) (events : List ℕ) (at : ℕ) (previous : Option ℕ)
    → leb (at + 8) (length events) ≡ false
    → last_from (suc fuel) events at previous ≡ some previous
unfolding last_from
last_from-stop fuel events at previous over = rw (over, last_from) refl

-- A record stands at the end of `pre`: its first word leads to what comes after it.
module _ (pre : List ℕ) (r : Record) (post : List ℕ) (fits : length (encode r) < 2 ^ 64) where
  first_word : read_word (pre ++ (encode r ++ post)) (length pre) ≡ 1 + body_words r
  unfolding encode
  first_word =
      ap (λ l. read_word (pre ++ l) (length pre))
        (append_assoc (le_bytes 8 (1 + length (body r) / 8)) (body r) post)
      ∙ read_word-append pre (1 + length (body r) / 8) (body r ++ post)
          (omega (arith, length-body r, length-encode r))
      ∙ omega (arith, length-body r)

  -- One round of the walk goes over it.
  last_from-encode :
      (fuel : ℕ) (previous : Option ℕ)
      → last_from (suc fuel) (pre ++ (encode r ++ post)) (length pre) previous
        ≡ last_from fuel (pre ++ (encode r ++ post)) (length (pre ++ encode r)) (some (length pre))
  last_from-encode fuel previous =
      let inside : leb (length pre + 8) (length (pre ++ (encode r ++ post))) ≡ true =
        simp length-append (ground (arith, length-encode r)) in
      let some_words : (read_word (pre ++ (encode r ++ post)) (length pre) == 0) ≡ false =
        rw first_word (ground arith) in
      let next : length pre + read_word (pre ++ (encode r ++ post)) (length pre) * 8
          ≡ length (pre ++ encode r) =
        rw first_word (omega (arith, length-append pre (encode r), length-encode r)) in
      last_from-step fuel (pre ++ (encode r ++ post)) (length pre) previous inside some_words
      ∙ ap (λ at. last_from fuel (pre ++ (encode r ++ post)) at (some (length pre))) next

-- From the first of some records the walk comes to the last.
last_from-stream :
    (rs : List Record) (pre : List ℕ) (r : Record) (fuel : ℕ) (previous : Option ℕ)
    → length (stream rs ++ encode r) < 2 ^ 64
    → length rs + 2 ≤ fuel
    → last_from fuel (pre ++ (stream rs ++ encode r)) (length pre) previous
      ≡ some (some (length (pre ++ stream rs)))
unfolding stream
last_from-stream rs pre r zero previous fits enough = absurd (omega arith)
last_from-stream [] pre r (suc zero) previous fits enough = absurd (omega arith)
last_from-stream [] pre r (suc (suc fuel)) previous fits enough =
    let over : leb (length (pre ++ encode r) + 8) (length (pre ++ (encode r ++ []))) ≡ false =
      rw (append-nil (encode r)) (ground arith) in
    ap (λ l. last_from (suc (suc fuel)) (pre ++ l) (length pre) previous)
      (sym (append-nil (encode r)))
    ∙ last_from-encode pre r [] fits (suc fuel) previous
    ∙ last_from-stop fuel (pre ++ (encode r ++ [])) (length (pre ++ encode r)) (some (length pre))
        over
    ∙ ap (λ l. some (some (length l))) (sym (append-nil pre))
last_from-stream (q ∷ rs) pre r (suc fuel) previous fits enough =
    let parts = length-append (encode q ++ stream rs) (encode r) in
    let parts' = length-append (encode q) (stream rs) in
    let parts'' = length-append (stream rs) (encode r) in
    ap (λ l. last_from (suc fuel) (pre ++ l) (length pre) previous)
      (append_assoc (encode q) (stream rs) (encode r))
    ∙ last_from-encode pre q (stream rs ++ encode r) (omega arith) fuel previous
    ∙ ap (λ l. last_from fuel l (length (pre ++ encode q)) (some (length pre)))
        (sym (append_assoc pre (encode q) (stream rs ++ encode r)))
    ∙ last_from-stream rs (pre ++ encode q) r fuel (some (length pre)) (omega arith) (omega arith)
    ∙ ap (λ l. some (some (length l))) (append_assoc pre (encode q) (stream rs))

length-stream : (rs : List Record) → length rs ≤ length (stream rs)
unfolding stream
length-stream [] = omega arith
length-stream (q ∷ rs) =
    omega (arith, length-append (encode q) (stream rs), length-encode q, length-stream rs)

last_event-cons :
    (events : List ℕ)
    → 0 < length events
    → (o : Option ℕ) → last_from (length events) events 0 none ≡ some o
    → last_event events ≡ o
unfolding last_event
last_event-cons [] h o e = absurd (omega arith)
last_event-cons (b ∷ bs) h o e = rw e refl

-- In a stream of whole records the walk finds where the last one starts.
pub last_event-stream :
    (rs : List Record) (r : Record)
    → length (stream rs ++ encode r) < 2 ^ 64
    → last_event (stream rs ++ encode r) ≡ some (length (stream rs))
last_event-stream rs r fits =
    let parts = length-append (stream rs) (encode r) in
    let some_bytes = length-encode r in
    let some_more = length-stream rs in
    last_event-cons (stream rs ++ encode r) (omega arith) (some (length (stream rs)))
      (last_from-stream rs [] r (length (stream rs ++ encode r)) none fits (omega arith))
