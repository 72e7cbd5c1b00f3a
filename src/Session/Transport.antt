-- ===== src/Session/Transport.antt =====
-- session.rs, the other calls: output, inspection, results, persistence, and one round of each of
-- the two loops that wait, `suspend` and `poll`.
use zebulon_lang.Prelude.{
  ℕ, ◌*◌, Bool, true, false, ◌&&◌, Option, none, some, List, [], ◌∷◌, ◌++◌, ◌==◌, leb,
  if◌then◌else◌, length, get_elem?, ok, err,
}
use zebulon_lang.Session.State.{Request, code, Reply, Shared, Call, Answer, Channel, with_session}
use zebulon_lang.Session.Events.{read_word}

-- `suspend`, up to its loop: output for the host, and the request.
unfoldable pub post : Request → List ℕ → Shared → Shared
post request bytes s = record s { output = s.output ++ bytes; request = some request }

-- One round of the loop of `suspend`, under the lock: `none` waits for a change.
closed_reply : Bool → Shared → Option Reply × Shared
closed_reply true s = (some (Reply.line none), record s { request = none })
closed_reply false s = (none, s)

unfoldable pub take_reply : Shared → Option Reply × Shared
unfolding closed_reply
take_reply s = elim s.reply [
  | some reply ↦ (some reply, record s { reply = none })
  | none ↦ closed_reply s.closed s
]

-- One round of the loop of `poll`: `none` waits for a change.
unfoldable pub poll : Shared → Option ℕ
unfolding code
poll s = elim s.request [
  | some request ↦ some (code request)
  | none ↦ elim s.finished [ none ↦ none | some _ ↦ some 2 ]
]

unfoldable pub append_output : List ℕ → Call Unit
append_output bytes s = (ok tt, record s { output = s.output ++ bytes })

-- No bytes, no change, and no session made either.
unfoldable pub publish : ℕ → List ℕ → Channel → Answer Unit × Channel
unfolding append_output
publish slot [] c = (ok tt, c)
publish slot (b ∷ bs) c = with_session slot (append_output (b ∷ bs)) c

unfoldable pub publish_results : List ℕ → Call Unit
publish_results values s = (ok tt, record s { results = values })

unfoldable pub take_inspection : Shared → Option (ℕ × ℕ × ℕ) × Shared
take_inspection s = (s.inspection, record s { inspection = none })

unfoldable pub finish : ℕ → Call Unit
finish outcome s = (ok tt, record s { request = none; finished = some outcome })

unfoldable pub byte_or : ℕ → Option ℕ → ℕ
byte_or absent none = absent
byte_or absent (some b) = b

unfoldable pub output_byte : ℕ → Shared → ℕ
unfolding byte_or
output_byte offset s = byte_or 256 (get_elem? s.output offset)

unfoldable pub output_len : Shared → ℕ
output_len s = length s.output

unfoldable pub output_word : ℕ → Shared → ℕ
unfolding read_word
output_word offset s = read_word s.output offset

unfoldable pub drained : Call Unit
drained s = (ok tt, record s { output = []; events = []; event_values = none })

unfoldable pub event_len : Shared → ℕ
event_len s = length s.events

unfoldable pub event_word : ℕ → Shared → ℕ
unfolding read_word
event_word offset s = read_word s.events offset

unfoldable pub result_len : Shared → ℕ
result_len s = length s.results

unfoldable pub result : ℕ → Shared → ℕ
unfolding byte_or
result index s = byte_or 0 (get_elem? s.results index)

unfoldable pub outcome : Shared → ℕ
unfolding byte_or
outcome s = byte_or 0 s.finished

inspect_free : Option (ℕ × ℕ × ℕ) → ℕ × ℕ × ℕ → Call Unit
inspect_free (some _) question s = (err 10, s)
inspect_free none question s = (ok tt, record s { inspection = some question })

unfoldable pub inspect : ℕ → ℕ → ℕ → Call Unit
unfolding inspect_free
inspect kind a b s = inspect_free s.inspection (kind, a, b) s

-- crate::save::MAX_BYTES
abbrev pub max_bytes : ℕ
max_bytes = 32 * 1024 * 1024

abbrev pub is_none {ℓ} : {A : Type ℓ} → Option A → Bool
is_none none = true
is_none (some _) = false

abbrev pub is_nil {ℓ} : {A : Type ℓ} → List A → Bool
is_nil [] = true
is_nil (_ ∷ _) = false

abbrev pub is_command : Option Request → Bool
is_command (some Request.command) = true
is_command _ = false

-- Whether a save or a restore may begin.
abbrev pub at_boundary : Shared → Bool
at_boundary s =
    is_command s.request
    && is_none s.reply
    && is_nil s.pending_text
    && is_none s.pending_verb
    && is_nil s.pending_subjects

append_upload : ℕ → Call ℕ
append_upload value s =
    if leb 256 value
    then (err 11, s)
    else if leb max_bytes (length s.save_bytes)
    then (err 5, s)
    else (ok 0, record s { save_bytes = s.save_bytes ++ value ∷ [] })

begin : Bool → Call ℕ
begin restore s =
    if at_boundary s
    then (
      ok 0,
      record s {
        save_bytes = [];
        save_busy = true;
        request = none;
        reply = some (Reply.persistence restore s.save_bytes);
      },
    )
    else (err 10, s)

-- `persistence`: 0 clear, 1 append, 2 save, 3 restore, 4 status, 5 length, 6 byte.
idle_op : ℕ → ℕ → Call ℕ
unfolding append_upload begin byte_or
idle_op op value s =
    if op == 0
    then (ok 0, record s { save_bytes = []; save_status = 0 })
    else if op == 1
    then append_upload value s
    else if op == 2
    then begin false s
    else if op == 3
    then begin true s
    else if op == 5
    then (ok (length s.save_bytes), s)
    else if op == 6
    then (ok (byte_or 256 (get_elem? s.save_bytes value)), s)
    else (err 11, s)

unfoldable pub persistence : ℕ → ℕ → Call ℕ
unfolding idle_op
persistence op value s =
    if op == 4
    then (ok (if s.save_busy then 10 else s.save_status), s)
    else if s.save_busy
    then (err 10, s)
    else idle_op op value s

-- `saved`: the worker's answer to a save or a restore.
unfoldable pub saved : Answer (List ℕ) → Call Unit
saved (ok bytes) s = (ok tt, record s { save_bytes = bytes; save_status = 0; save_busy = false })
saved (err c) s = (ok tt, record s { save_bytes = []; save_status = c; save_busy = false })
