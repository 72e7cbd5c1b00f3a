-- ===== src/Session/Events.antt =====
-- session.rs, the event stream: records of little-endian words that a turn appends to and extends.
use zebulon_lang.Prelude.{
  ℕ, zero, suc, ◌+◌, ◌-◌, ◌*◌, ◌/◌, ◌^◌, min, Bool, true, false, Option, none, some, List, [], ◌∷◌,
  ◌++◌, ◌||◌, ◌==◌, ltb, leb, if◌then◌else◌, length, take, drop, replicate, ok, err,
}
use zebulon_lang.Prelude.Exec.{◌>>◌, modify}
use zebulon_lang.Prelude.Bytes.{le_bytes, of_le_bytes, is_utf8}
use zebulon_lang.Session.State.{Call, packet_limit}

-- `read_word`: eight bytes, zero-filled past the end.
unfoldable pub read_word : List ℕ → ℕ → ℕ
read_word events at = of_le_bytes (take 8 (drop at events))

-- `n.div_ceil(8)`
abbrev pub div_ceil : ℕ → ℕ
div_ceil n = (n + 7) / 8

-- `events[at..at + 8].copy_from_slice(..)`
unfoldable pub write_word : List ℕ → ℕ → ℕ → List ℕ
write_word events at word = take at events ++ (le_bytes 8 word ++ drop (at + 8) events)

-- `bump`: one more in the word at this offset, `saturating_add`.
unfoldable pub bump : List ℕ → ℕ → List ℕ
unfolding read_word write_word
bump events at =
    if leb (at + 8) (length events)
    then write_word events at (min (read_word events at + 1) (2 ^ 64 - 1))
    else events

-- `id_words`: the words of the id of the record that starts here.
unfoldable pub id_words : List ℕ → ℕ → ℕ
unfolding read_word
id_words events start = div_ceil (read_word events (start + 8))

-- The `while` loop of `last_event`, on fuel: the outer `none` says that it ran out.
unfoldable pub last_from : ℕ → List ℕ → ℕ → Option ℕ → Option (Option ℕ)
unfolding read_word
last_from zero events at previous = none
last_from (suc fuel) events at previous = elim (leb (at + 8) (length events)) [
  | false ↦ some previous
  | true ↦ elim (read_word events at == 0) [
    | true ↦ some previous
    | false ↦ last_from fuel events (at + read_word events at * 8) (some at)
  ]
]

flatten : Option (Option ℕ) → Option ℕ
flatten none = none
flatten (some o) = o

-- `last_event`: every round goes on by eight bytes at least.
unfoldable pub last_event : List ℕ → Option ℕ
unfolding last_from flatten
last_event [] = none
last_event (b ∷ bs) = flatten (last_from (length (b ∷ bs)) (b ∷ bs) 0 none)

unfoldable pub is_nil : List ℕ → Bool
is_nil [] = true
is_nil (_ ∷ _) = false

-- The bytes of a new record: its words, the id's length, the padded id, and no entities yet.
unfoldable pub new_record : List ℕ → List ℕ
new_record id =
    le_bytes 8 (3 + div_ceil (length id))
    ++ (le_bytes 8 (length id)
        ++ (id ++ (replicate (div_ceil (length id) * 8 - length id) 0 ++ le_bytes 8 0)))

unfoldable pub event : List ℕ → Call Unit
unfolding new_record is_nil
event id s =
    if is_nil id || ltb packet_limit (length id)
    then (err 5, s)
    else if ltb packet_limit (length s.events + (3 + div_ceil (length id)) * 8)
    then (err 5, s)
    else (ok tt, record s { event_values = none; events = s.events ++ new_record id })

-- b"world.resync"
abbrev pub world_resync : List ℕ
world_resync =
    b'w' ∷ b'o' ∷ b'r' ∷ b'l' ∷ b'd' ∷ b'.' ∷ b'r' ∷ b'e' ∷ b's' ∷ b'y' ∷ b'n' ∷ b'c' ∷ []

unfoldable pub resync : Call Unit
resync = do
  modify (λ s. record s { events = []; event_values = none; snapshot = 0 })
  event world_resync

unfoldable pub restored : Call Unit
restored = do
  modify (λ s. record s {
    results = [];
    inspection = none;
    output = [];
    pending_subjects = [];
    pending_size = 0;
    pending_text = [];
    pending_verb = none;
  })
  resync

-- The entity count of the record that starts at `start`.
abbrev pub count_at : List ℕ → ℕ → ℕ
count_at events start = start + 16 + 8 * id_words events start

unfoldable pub subject_at : Option ℕ → ℕ → Call Unit
subject_at none handle s = (err 11, s)
subject_at (some start) handle s = elim s.event_values [
  | some _ ↦ (err 11, s)
  | none ↦ if ltb packet_limit (length s.events + 8) then (err 5, s) else (
    ok tt,
    record s { events = bump (bump s.events (count_at s.events start)) start ++ le_bytes 8 handle },
  )
]

unfoldable pub event_subject : ℕ → Call Unit
unfolding subject_at
event_subject handle s = subject_at (last_event s.events) handle s

-- Which bytes a tag takes.
unfoldable pub is_valid_value : ℕ → List ℕ → Bool
unfolding is_utf8
is_valid_value tag bytes =
    if tag == 0 || tag == 1
    then length bytes == 0
    else if tag == 2 || tag == 3
    then length bytes == 8
    else if tag == 4
    then is_utf8 bytes
    else false

-- The value count stands where the first value of the record put it.
abbrev pub values_at : Option ℕ → List ℕ → ℕ
values_at (some at) events = at
values_at none events = length events

abbrev pub with_count : Option ℕ → List ℕ → List ℕ
with_count (some at) events = events
with_count none events = events ++ le_bytes 8 0

-- The bytes of one value, and of its count where it is the record's first.
abbrev pub extra : Option ℕ → List ℕ → ℕ
extra none bytes = 16 + div_ceil (length bytes) * 8 + 8
extra (some _) bytes = 16 + div_ceil (length bytes) * 8

unfoldable pub value_bytes : ℕ → List ℕ → List ℕ
value_bytes tag bytes =
    le_bytes 8 tag
    ++ (le_bytes 8 (length bytes)
        ++ (bytes ++ replicate (div_ceil (length bytes) * 8 - length bytes) 0))

-- The stream with one value more, before its record's length is written.
unfoldable pub grown : Option ℕ → List ℕ → ℕ → List ℕ → List ℕ
unfolding value_bytes
grown values events tag bytes =
    bump (with_count values events) (values_at values events) ++ value_bytes tag bytes

value_after : Option ℕ → ℕ → List ℕ → Call Unit
value_after none tag bytes s = (err 11, s)
value_after (some start) tag bytes s =
    if ltb packet_limit (length s.events + extra s.event_values bytes)
    then (err 5, s)
    else let longer = grown s.event_values s.events tag bytes in
      (
        ok tt,
        record s {
          event_values = some (values_at s.event_values s.events);
          events = write_word longer start ((length longer - start) / 8);
        },
      )

unfoldable pub event_value : ℕ → List ℕ → Call Unit
unfolding value_after
event_value tag bytes s =
    if is_valid_value tag bytes
    then (if ltb packet_limit (length bytes)
        then (err 5, s)
        else value_after (last_event s.events) tag bytes s)
    else (err 16, s)
