-- ===== src/Session/Stream.antt =====
-- session.rs: `event` and `event_subject` on the records that the stream stands for.
use zebulon_lang.Prelude.{
  ℕ, ◌+◌, ◌-◌, ◌*◌, ◌/◌, ◌^◌, ◌≤◌, ◌<◌, ◌≡◌, refl, sym, ap, ap₂, ◌∙◌, true, false, Option, none,
  some, List, [], ◌∷◌, ◌++◌, append_assoc, append-nil, leb, ltb, arith, length, take, drop,
  replicate, length-append, length-replicate, drop-append, take-append, ok, min,
}
use zebulon_lang.Prelude.Bytes.{le_bytes, length-le_bytes}
use zebulon_lang.Session.State.{Shared, packet_limit}
use zebulon_lang.Session.Events.{
  div_ceil, read_word, write_word, bump, id_words, count_at, last_event, new_record, event,
  event_subject,
}
use zebulon_lang.Session.Records.{
  Record, words_of, value_part, padded, body, encode, stream, read_word-append, value_words,
  body_words, length-body, length-encode, last_event-stream,
}

-- The word at the seam of two lists, written and counted up.
pub write_word-append :
    (pre : List ℕ) (n w : ℕ) (post : List ℕ)
    → write_word (pre ++ (le_bytes 8 n ++ post)) (length pre) w ≡ pre ++ (le_bytes 8 w ++ post)
unfolding write_word
write_word-append pre n w post =
    let front : take (length pre) (pre ++ (le_bytes 8 n ++ post)) ≡ pre = take-append pre _ in
    let behind : drop (length pre + 8) (pre ++ (le_bytes 8 n ++ post)) ≡ post =
      ap (λ k. drop k (pre ++ (le_bytes 8 n ++ post)))
        (omega (arith, length-append pre (le_bytes 8 n), length-le_bytes 8 n))
      ∙ ap (λ l. drop (length (pre ++ le_bytes 8 n)) l) (sym (append_assoc pre (le_bytes 8 n) post))
      ∙ drop-append (pre ++ le_bytes 8 n) post in
    ap₂ (λ x y. x ++ (le_bytes 8 w ++ y)) front behind

pub bump-append :
    (pre : List ℕ) (n : ℕ) (post : List ℕ)
    → n + 1 < 2 ^ 64
    → bump (pre ++ (le_bytes 8 n ++ post)) (length pre) ≡ pre ++ (le_bytes 8 (n + 1) ++ post)
unfolding bump
bump-append pre n post h =
    let inside : leb (length pre + 8) (length (pre ++ (le_bytes 8 n ++ post))) ≡ true =
      simp (length-append, length-le_bytes) (ground arith) in
    let raised : min (read_word (pre ++ (le_bytes 8 n ++ post)) (length pre) + 1) (2 ^ 64 - 1)
        ≡ n + 1 =
      rw (read_word-append pre n post (omega arith)) (omega arith) in
    rw (inside, raised) (write_word-append pre n (n + 1) post)

-- The stream holds `rs`, then `r`, and the mark shows where the values of `r` are counted, if any.
abbrev mark_at : ℕ → List (ℕ × List ℕ) → Option ℕ
mark_at at [] = none
mark_at at (_ ∷ _) = some at

abbrev pub mark : List ℕ → Record → Option ℕ
mark pre r = mark_at (length pre + 8 * (3 + div_ceil (length r.id) + length r.subjects)) r.values

pub record IsView (rs : List Record) (r : Record) (s : Shared) : Type 0 where
  pub bytes : s.events ≡ stream rs ++ encode r
  pub marked : s.event_values ≡ mark (stream rs) r

abbrev pub begun : List ℕ → Record
begun id = record { id = id; subjects = []; values = [] }

new_record-encode : (id : List ℕ) → new_record id ≡ encode (begun id)
unfolding new_record encode body words_of value_part
new_record-encode id =
    let words : 1 + length (body (begun id)) / 8 ≡ 3 + div_ceil (length id) =
      omega (arith, length-body (begun id)) in
    ap₂ (λ w l. le_bytes 8 w ++ (le_bytes 8 (length id) ++ l)) (sym words)
      (ap (λ l. id ++ (replicate (div_ceil (length id) * 8 - length id) 0 ++ l))
          (sym (append-nil (le_bytes 8 0)))
        ∙ sym (
            append_assoc id (replicate (div_ceil (length id) * 8 - length id) 0)
              (le_bytes 8 0 ++ [])))

-- A new event with an id of 1 to 65536 bytes, for which the packet has room, is one more record with
-- no entities; the records before it stay.
pub event-IsView :
    (rs : List Record) (id : List ℕ) (s : Shared)
    → s.events ≡ stream rs
    → 0 < length id
    → length id ≤ packet_limit
    → length s.events + (3 + div_ceil (length id)) * 8 ≤ packet_limit
    → (u : Shared) × (event id s ≡ (ok tt, u)) × IsView rs (begun id) u
unfolding event
event-IsView rs [] s e some_id short room = absurd (omega arith)
event-IsView rs (b ∷ bs) s e some_id short room =
    let id : List ℕ = b ∷ bs in
    let short' : ltb packet_limit (length id) ≡ false = ground arith in
    let room' : ltb packet_limit (length s.events + (3 + div_ceil (length id)) * 8) ≡ false =
      ground arith in
    (
      record s { event_values = none; events = s.events ++ new_record id },
      rw (short', room') refl,
      record { bytes = ap₂ (λ x y. x ++ y) e (new_record-encode id); marked = refl },
    )

words_of-snoc : (ws : List ℕ) (w : ℕ) → words_of (ws ++ w ∷ []) ≡ words_of ws ++ le_bytes 8 w
unfolding words_of
words_of-snoc [] w = append-nil (le_bytes 8 w)
words_of-snoc (v ∷ ws) w =
    ap (λ l. le_bytes 8 v ++ l) (words_of-snoc ws w)
    ∙ sym (append_assoc (le_bytes 8 v) (words_of ws) (le_bytes 8 w))

-- The record up to its entity count, and what follows, for a record with no values.
head_of : ℕ → Record → List ℕ
head_of w r = le_bytes 8 w ++ (le_bytes 8 (length r.id) ++ padded r.id)

length-head_of : (w : ℕ) (r : Record) → length (head_of w r) ≡ 16 + 8 * div_ceil (length r.id)
unfolding head_of
length-head_of w r = simp (length-append, length-le_bytes, length-replicate) (omega arith)

-- A record by its parts, with `w` words and `n` entities.
parts : ℕ → ℕ → Record → List ℕ → List ℕ
parts w n r after = head_of w r ++ (le_bytes 8 n ++ after)

encode-parts :
    (r : Record)
    → r.values ≡ []
    → encode r ≡ parts (1 + body_words r) (length r.subjects) r (words_of r.subjects)
unfolding encode body value_part parts head_of
encode-parts r no_values =
    let words : 1 + length (body r) / 8 ≡ 1 + body_words r = omega (arith, length-body r) in
    ap₂
      (λ w l.
        le_bytes 8 w
        ++ (le_bytes 8 (length r.id)
            ++ (padded r.id
                ++ (le_bytes 8 (length r.subjects) ++ (words_of r.subjects ++ value_part l)))))
      words no_values
    ∙ simp (append_assoc, append-nil)

module _ (pre : List ℕ) (w n : ℕ) (r : Record) (after : List ℕ) where
  -- Where the count is: the walk reads the id's length in the record's second word.
  count_at-parts :
      length r.id < 2 ^ 64
      → count_at (pre ++ parts w n r after) (length pre) ≡ length (pre ++ head_of w r)
  unfolding id_words parts head_of
  count_at-parts fits =
      let tail = padded r.id ++ (le_bytes 8 n ++ after) in
      let same : pre ++ parts w n r after
          ≡ (pre ++ le_bytes 8 w) ++ (le_bytes 8 (length r.id) ++ tail) =
        simp append_assoc in
      let at : length pre + 8 ≡ length (pre ++ le_bytes 8 w) =
        omega (arith, length-append pre (le_bytes 8 w), length-le_bytes 8 w) in
      let second : read_word (pre ++ parts w n r after) (length pre + 8) ≡ length r.id =
        ap₂ (λ l k. read_word l k) same at
        ∙ read_word-append (pre ++ le_bytes 8 w) (length r.id) tail fits in
      rw second (omega (arith, length-append pre (head_of w r), length-head_of w r))

  bump-count :
      n + 1 < 2 ^ 64
      → bump (pre ++ parts w n r after) (length (pre ++ head_of w r))
        ≡ pre ++ parts w (n + 1) r after
  unfolding parts
  bump-count fits =
      ap (λ l. bump l (length (pre ++ head_of w r)))
        (sym (append_assoc pre (head_of w r) (le_bytes 8 n ++ after)))
      ∙ bump-append (pre ++ head_of w r) n after fits
      ∙ append_assoc pre (head_of w r) (le_bytes 8 (n + 1) ++ after)

  bump-words :
      w + 1 < 2 ^ 64 → bump (pre ++ parts w n r after) (length pre) ≡ pre ++ parts (w + 1) n r after
  unfolding parts head_of
  bump-words fits =
      let rest = (le_bytes 8 (length r.id) ++ padded r.id) in
      ap (λ l. bump (pre ++ l) (length pre))
        (append_assoc (le_bytes 8 w) rest (le_bytes 8 n ++ after))
      ∙ bump-append pre w (rest ++ (le_bytes 8 n ++ after)) fits
      ∙ ap (λ l. pre ++ l) (sym (append_assoc (le_bytes 8 (w + 1)) rest (le_bytes 8 n ++ after)))

  parts-append :
      (more : List ℕ) → (pre ++ parts w n r after) ++ more ≡ pre ++ parts w n r (after ++ more)
  unfolding parts
  parts-append more = simp append_assoc

unmarked_lem : (at : ℕ) (values : List (ℕ × List ℕ)) → values ≡ [] → mark_at at values ≡ none
unmarked_lem at values h = ap (λ vs. mark_at at vs) h

-- A record with one entity more, by its parts.
encode-snoc :
    (r : Record) (handle : ℕ)
    → r.values ≡ []
    → encode (record r { subjects = r.subjects ++ handle ∷ [] })
      ≡ parts
          (1 + body_words r + 1)
          (length r.subjects + 1)
          r
          (words_of r.subjects ++ le_bytes 8 handle)
unfolding parts head_of
encode-snoc r handle no_values =
    let more : length (r.subjects ++ handle ∷ []) ≡ length r.subjects + 1 =
      length-append r.subjects (handle ∷ []) in
    let words : 1
          + (2 + div_ceil (length r.id) + length (r.subjects ++ handle ∷ []) + value_words r.values)
        ≡ 1 + body_words r + 1 =
      omega arith in
    encode-parts (record r { subjects = r.subjects ++ handle ∷ [] }) no_values
    ∙ ap₂ (λ w n. parts w n r (words_of (r.subjects ++ handle ∷ []))) words more
    ∙ ap (λ l. parts (1 + body_words r + 1) (length r.subjects + 1) r l)
        (words_of-snoc r.subjects handle)

-- A subject added to the last record, whose words and entities are counted up, for which the packet
-- has room: the record gets that entity, last; the other records stay. The record has no values yet.
pub event_subject-IsView :
    (rs : List Record) (r : Record) (handle : ℕ) (s : Shared)
    → IsView rs r s
    → r.values ≡ []
    → length s.events + 8 ≤ packet_limit
    → (u : Shared) × (event_subject handle s ≡ (ok tt, u))
      × IsView rs (record r { subjects = r.subjects ++ handle ∷ [] }) u
unfolding event_subject
event_subject-IsView rs r handle s v no_values room =
    let pre = stream rs in
    let w : ℕ = 1 + body_words r in
    let n : ℕ = length r.subjects in
    let r' : Record = record r { subjects = r.subjects ++ handle ∷ [] } in
    let size = ap (λ (l : List ℕ). length l) v.bytes ∙ length-append pre (encode r) in
    let size' = length-encode r in
    let unmarked : s.event_values ≡ none =
      v.marked
      ∙ unmarked_lem (length pre + 8 * (3 + div_ceil (length r.id) + n)) r.values no_values in
    let at : last_event s.events ≡ some (length pre) =
      rw v.bytes (last_event-stream rs r (omega (arith, length-append pre (encode r)))) in
    let room' : ltb packet_limit (length s.events + 8) ≡ false = ground arith in
    let events : s.events ≡ pre ++ parts w n r (words_of r.subjects) =
      v.bytes ∙ ap (λ l. pre ++ l) (encode-parts r no_values) in
    let fits : w + 1 < 2 ^ 64 = omega arith in
    let counted : count_at s.events (length pre) ≡ length (pre ++ head_of w r) =
      ap (λ l. count_at l (length pre)) events
      ∙ count_at-parts pre w n r (words_of r.subjects) (omega arith) in
    let changed : bump (bump s.events (count_at s.events (length pre))) (length pre)
          ++ le_bytes 8 handle
        ≡ pre ++ encode r' =
      ap₂ (λ l k. bump (bump l k) (length pre) ++ le_bytes 8 handle) events counted
      ∙ ap (λ l. bump l (length pre) ++ le_bytes 8 handle)
          (bump-count pre w n r (words_of r.subjects) (omega arith))
      ∙ ap (λ l. l ++ le_bytes 8 handle) (bump-words pre w (n + 1) r (words_of r.subjects) fits)
      ∙ parts-append pre (w + 1) (n + 1) r (words_of r.subjects) (le_bytes 8 handle)
      ∙ ap (λ l. pre ++ l) (sym (encode-snoc r handle no_values)) in
    let unmarked' : mark pre r' ≡ none = unmarked_lem _ r.values no_values in
    (
      record s {
        events =
            bump (bump s.events (count_at s.events (length pre))) (length pre) ++ le_bytes 8 handle;
      },
      rw (at, unmarked, room') refl,
      record { bytes = changed; marked = unmarked ∙ sym unmarked' },
    )
