-- ===== src/Session/Bounds.antt =====
-- session.rs: what a host can assemble, and what a turn can report, stays within one packet.
use zebulon_lang.Prelude.{
  ℕ, zero, suc, ◌+◌, ◌*◌, ◌/◌, ◌≤◌, ◌≡◌, refl, Option, none, some, List, [], ◌∷◌, ◌++◌, arith, min,
  ltb, ◌-◌, ◌^◌, ◌==◌, inl, inr, Bool-cases, Option-cases, length, length-append, length-take,
  length-drop, length-replicate, ok, err,
}
use zebulon_lang.Prelude.Bytes.{length-le_bytes, le_bytes, is_utf8}
use zebulon_lang.Prelude.Int.{signed64, fits_i32}
use zebulon_lang.Session.State.{
  Scalar, nil, true_value, integer, entity, text, Request, Shared, Answer, packet_limit, reset,
}
use zebulon_lang.Session.Events.{
  event, write_word, bump, read_word, last_from, last_event, count_at, grown, extra, event_subject,
  event_value, resync, restored, new_record, div_ceil, world_resync,
}
use zebulon_lang.Session.Replies.{
  assembled, reply_byte, reply_action, reply_subject, reply_value, value_of, push_value, resume,
  close,
}
use zebulon_lang.Session.Transport.{
  post, take_reply, publish_results, take_inspection, finish, drained, inspect, persistence, saved,
}

-- The bytes that an argument takes in a packet.
abbrev pub size_of : Scalar → ℕ
size_of (text bytes) = 16 + length bytes
size_of _ = 16

abbrev pub sizes : List Scalar → ℕ
sizes [] = 0
sizes (v ∷ vs) = size_of v + sizes vs

pub record IsWithin (s : Shared) : Type 0 where
  pub packet : assembled s ≤ packet_limit
  pub counted : s.pending_size ≡ sizes s.pending_subjects
  pub stream : length s.events ≤ packet_limit

sizes-append : (vs : List Scalar) (v : Scalar) → sizes (vs ++ v ∷ []) ≡ sizes vs + size_of v
sizes-append [] v = omega arith
sizes-append (w ∷ vs) v = omega (arith, sizes-append vs v)

-- The calls that change one session and go by its lock alone; `Channel` has the others.
pub data Op : Type 0 where
  reset_session : Op
  post_request : Request → List ℕ → Op
  take : Op
  publish_numbers : List ℕ → Op
  take_question : Op
  finish_with : ℕ → Op
  drain : Op
  start_event : List ℕ → Op
  name_subject : ℕ → Op
  name_value : ℕ → List ℕ → Op
  resync_world restore_world : Op
  byte : ℕ → Op
  verb : ℕ → Op
  subject : ℕ → Op
  argument : ℕ → ℕ → Op
  deliver_reply close_input : Op
  ask : ℕ → ℕ → ℕ → Op
  persist : ℕ → ℕ → Op
  persisted : Answer (List ℕ) → Op

-- The state after a call, whether it succeeded or not.
abbrev pub after : Op → Shared → Shared
after reset_session s = (reset s).1
after (post_request request bytes) s = post request bytes s
after take s = (take_reply s).1
after (publish_numbers values) s = (publish_results values s).1
after take_question s = (take_inspection s).1
after (finish_with n) s = (finish n s).1
after drain s = (drained s).1
after (start_event id) s = (event id s).1
after (name_subject handle) s = (event_subject handle s).1
after (name_value tag bytes) s = (event_value tag bytes s).1
after resync_world s = (resync s).1
after restore_world s = (restored s).1
after (byte b) s = (reply_byte b s).1
after (verb v) s = (reply_action v s).1
after (subject handle) s = (reply_subject handle s).1
after (argument tag payload) s = (reply_value tag payload s).1
after deliver_reply s = (resume s).1
after close_input s = (close s).1
after (ask kind a b) s = (inspect kind a b s).1
after (persist op value) s = (persistence op value s).1
after (persisted answer) s = (saved answer s).1

length-new_record : (id : List ℕ) → length (new_record id) ≡ (3 + div_ceil (length id)) * 8
unfolding new_record
length-new_record id = simp (length-append, length-le_bytes, length-replicate) (omega arith)

event-IsWithin : (id : List ℕ) (s : Shared) → IsWithin s → IsWithin (event id s).1
unfolding event
event-IsWithin id s h = ground (arith, length-append s.events (new_record id), length-new_record id)

reply_byte-IsWithin : (b : ℕ) (s : Shared) → IsWithin s → IsWithin (reply_byte b s).1
unfolding reply_byte
reply_byte-IsWithin b s h = ground (arith, length-append s.pending_text (b ∷ []))

reply_subject-IsWithin :
    (handle : ℕ) (s : Shared) → IsWithin s → IsWithin (reply_subject handle s).1
unfolding reply_subject
reply_subject-IsWithin handle s h = ground (arith, sizes-append s.pending_subjects (entity handle))

push_value-IsWithin :
    (v : Scalar) (s : Shared)
    → IsWithin s
    → assembled s + size_of v ≤ packet_limit
    → IsWithin (push_value v (size_of v) s)
unfolding push_value
push_value-IsWithin v s h room = ground (arith, sizes-append s.pending_subjects v)

value_of-IsWithin :
    (tag payload : ℕ) (s : Shared)
    → IsWithin s
    → assembled s + 16 ≤ packet_limit
    → IsWithin (value_of tag payload s).1
unfolding value_of
value_of-IsWithin tag payload s h room = elim (Bool-cases (tag == 0)) [
  | inl t0 ↦ rw t0 (elim (Bool-cases (payload == 0)) [
    | inl p ↦ rw p (push_value-IsWithin nil s h room)
    | inr p ↦ rw p h
  ])
  | inr n0 ↦ elim (Bool-cases (tag == 1)) [
    | inl t1 ↦
        rw (n0, t1)
          (elim (Bool-cases (payload == 0)) [
            | inl p ↦ rw p (push_value-IsWithin true_value s h room)
            | inr p ↦ rw p h
          ])
    | inr n1 ↦ elim (Bool-cases (tag == 2)) [
      | inl t2 ↦
          rw (n0, n1, t2)
            (elim (Bool-cases (fits_i32 (signed64 payload))) [
              | inl p ↦ rw p (push_value-IsWithin (integer (signed64 payload)) s h room)
              | inr p ↦ rw p h
            ])
      | inr n2 ↦ elim (Bool-cases (tag == 3)) [
        | inl t3 ↦ rw (n0, n1, n2, t3) (push_value-IsWithin (entity payload) s h room)
        | inr n3 ↦ elim (Bool-cases (tag == 4)) [
          | inl t4 ↦
              rw (n0, n1, n2, n3, t4)
                (elim (Bool-cases (payload == 0)) [
                  | inl p ↦ rw p (elim (Bool-cases (is_utf8 s.pending_text)) [
                    | inl ok_text ↦ rw ok_text (
                        push_value-IsWithin (text s.pending_text) (record s { pending_text = [] })
                          (record { packet = omega arith; counted = h.counted; stream = h.stream })
                          (omega arith))
                    | inr bad ↦ rw bad h
                  ])
                  | inr p ↦ rw p h
                ])
          | inr n4 ↦ rw (n0, n1, n2, n3, n4) h
        ]
      ]
    ]
  ]
]

reply_value-IsWithin :
    (tag payload : ℕ) (s : Shared) → IsWithin s → IsWithin (reply_value tag payload s).1
unfolding reply_value
reply_value-IsWithin tag payload s h = elim (Bool-cases (ltb packet_limit (assembled s + 16))) [
  | inl full ↦ rw full h
  | inr room ↦ rw room (value_of-IsWithin tag payload s h (ground arith))
]

resume-IsWithin : (s : Shared) → IsWithin s → IsWithin (resume s).1
unfolding resume
resume-IsWithin s h = ground arith

length-write_word :
    (events : List ℕ) (at word : ℕ)
    → at + 8 ≤ length events
    → length (write_word events at word) ≡ length events
unfolding write_word
length-write_word events at word h =
    simp (length-append, length-le_bytes, length-take, length-drop) (omega arith)

length-bump : (events : List ℕ) (at : ℕ) → length (bump events at) ≡ length events
unfolding bump
length-bump events at =
    ground (arith, length-write_word events at (min (read_word events at + 1) (2 ^ 64 - 1)))

-- A record that the walk finds has its first word inside the stream.
last_from-lt :
    (fuel : ℕ) (events : List ℕ) (at : ℕ) (previous : Option ℕ) {start : ℕ}
    → ((p : ℕ) → previous ≡ some p → p + 8 ≤ length events)
    → last_from fuel events at previous ≡ some (some start)
    → start + 8 ≤ length events
unfolding last_from
last_from-lt zero events at previous inside e = cc
last_from-lt (suc fuel) events at previous {start} inside e = ground (
  arith,
  inside start,
  last_from-lt fuel events (at + read_word events at * 8) (some at) {start = start},
)

event_subject-IsWithin :
    (handle : ℕ) (s : Shared) → IsWithin s → IsWithin (event_subject handle s).1
unfolding event_subject
event_subject-IsWithin handle s h = elim (Option-cases (last_event s.events)) [
  | inl nothing ↦ rw nothing h
  | inr (start, e) ↦ rw e (
      ground (
        arith,
        length-append (bump (bump s.events (count_at s.events start)) start) (le_bytes 8 handle),
        length-bump (bump s.events (count_at s.events start)) start,
        length-bump s.events (count_at s.events start),
        length-le_bytes 8 handle,
      ))
]

last_event-lt :
    (events : List ℕ) {start : ℕ} → last_event events ≡ some start → start + 8 ≤ length events
unfolding last_event
last_event-lt [] e = cc
last_event-lt (b ∷ bs) {start} e =
    ground (arith, last_from-lt (length (b ∷ bs)) (b ∷ bs) 0 none {start = start} (λ p q. cc))

length-grown :
    (values : Option ℕ) (events : List ℕ) (tag : ℕ) (bytes : List ℕ)
    → length (grown values events tag bytes) ≡ length events + extra values bytes
unfolding grown
length-grown none events tag bytes =
    simp (length-append, length-le_bytes, length-replicate, length-bump) (omega arith)
length-grown (some at) events tag bytes =
    simp (length-append, length-le_bytes, length-replicate, length-bump) (omega arith)

event_value-IsWithin :
    (tag : ℕ) (bytes : List ℕ) (s : Shared) → IsWithin s → IsWithin (event_value tag bytes s).1
unfolding event_value
event_value-IsWithin tag bytes s h = elim (Option-cases (last_event s.events)) [
  | inl nothing ↦ rw nothing (ground arith)
  | inr (start, e) ↦ rw e (
      ground (
        arith,
        length-grown s.event_values s.events tag bytes,
        last_event-lt s.events e,
        length-write_word (grown s.event_values s.events tag bytes) start
            ((length (grown s.event_values s.events tag bytes) - start) / 8),
      ))
]

resync-IsWithin : (s : Shared) → IsWithin s → IsWithin (resync s).1
unfolding resync
resync-IsWithin s h =
    event-IsWithin world_resync _
      (record { packet = h.packet; counted = h.counted; stream = omega arith })

restored-IsWithin : (s : Shared) → IsWithin s → IsWithin (restored s).1
unfolding restored
restored-IsWithin s h =
    resync-IsWithin _ (record { packet = omega arith; counted = refl; stream = h.stream })

persistence-IsWithin :
    (op value : ℕ) (s : Shared) → IsWithin s → IsWithin (persistence op value s).1
unfolding persistence
persistence-IsWithin op value s h = ground arith

take_reply-IsWithin : (s : Shared) → IsWithin s → IsWithin (take_reply s).1
unfolding take_reply
take_reply-IsWithin s h = ground arith

inspect-IsWithin : (kind a b : ℕ) (s : Shared) → IsWithin s → IsWithin (inspect kind a b s).1
unfolding inspect
inspect-IsWithin kind a b s h = ground arith

-- Each of these calls, on every branch, keeps what the host has assembled within one packet, its count in
-- step with the arguments themselves, and the event stream within one packet.
pub after-IsWithin : (op : Op) (s : Shared) → IsWithin s → IsWithin (after op s)
unfolding reset post publish_results take_inspection finish drained reply_action close saved
after-IsWithin reset_session s h = record {
  packet = omega arith;
  counted = refl;
  stream = omega arith;
}
after-IsWithin (post_request request bytes) s h = omega arith
after-IsWithin take s h = take_reply-IsWithin s h
after-IsWithin (publish_numbers values) s h = omega arith
after-IsWithin take_question s h = omega arith
after-IsWithin (finish_with n) s h = omega arith
after-IsWithin drain s h = omega arith
after-IsWithin (start_event id) s h = event-IsWithin id s h
after-IsWithin (name_subject handle) s h = event_subject-IsWithin handle s h
after-IsWithin (name_value tag bytes) s h = event_value-IsWithin tag bytes s h
after-IsWithin resync_world s h = resync-IsWithin s h
after-IsWithin restore_world s h = restored-IsWithin s h
after-IsWithin (byte b) s h = reply_byte-IsWithin b s h
after-IsWithin (verb v) s h = omega arith
after-IsWithin (subject handle) s h = reply_subject-IsWithin handle s h
after-IsWithin (argument tag payload) s h = reply_value-IsWithin tag payload s h
after-IsWithin deliver_reply s h = resume-IsWithin s h
after-IsWithin close_input s h = omega arith
after-IsWithin (ask kind a b) s h = inspect-IsWithin kind a b s h
after-IsWithin (persist op value) s h = persistence-IsWithin op value s h
after-IsWithin (persisted (ok bytes)) s h = omega arith
after-IsWithin (persisted (err c)) s h = omega arith
