-- ===== src/Session/Replies.antt =====
-- session.rs, the host's side of a request: assembling a reply and delivering it.
use zebulon_lang.Prelude.{
  ℕ, ◌+◌, Bool, true, not, Option, none, some, [], ◌∷◌, ◌++◌, ◌==◌, ltb, leb, if◌then◌else◌, length,
  head?, ok, err,
}
use zebulon_lang.Prelude.Bytes.{is_utf8}
use zebulon_lang.Prelude.Int.{ℤ, pos, signed64, fits_i32}
use zebulon_lang.Prelude.Text.{parse_i64}
use zebulon_lang.Session.State.{
  Scalar, nil, true_value, integer, entity, text, Request, Reply, Shared, Call, Answer,
  packet_limit,
}

-- What the host has assembled so far, by the counts that bound it.
abbrev pub assembled : Shared → ℕ
assembled s = s.pending_size + length s.pending_text

unfoldable pub reply_byte : ℕ → Call Unit
reply_byte byte s =
    if leb packet_limit (assembled s)
    then (err 5, s)
    else (ok tt, record s { pending_text = s.pending_text ++ byte ∷ [] })

unfoldable pub reply_action : ℕ → Call Unit
reply_action verb s = (ok tt, record s { pending_verb = some verb })

unfoldable pub reply_subject : ℕ → Call Unit
reply_subject handle s = if ltb packet_limit (assembled s + 16) then (err 5, s) else (
  ok tt,
  record s {
    pending_subjects = s.pending_subjects ++ entity handle ∷ [];
    pending_size = s.pending_size + 16;
  },
)

-- One more argument, of `size` bytes.
unfoldable pub push_value : Scalar → ℕ → Shared → Shared
push_value v size s = record s {
  pending_subjects = s.pending_subjects ++ v ∷ [];
  pending_size = s.pending_size + size;
}

-- The argument that a tag and a payload stand for. A text takes the assembled bytes.
unfoldable pub value_of : ℕ → ℕ → Call Unit
value_of tag payload s =
    if tag == 0
    then (if payload == 0 then (ok tt, push_value nil 16 s) else (err 16, s))
    else if tag == 1
    then (if payload == 0 then (ok tt, push_value true_value 16 s) else (err 16, s))
    else if tag == 2
    then (if fits_i32 (signed64 payload)
        then (ok tt, push_value (integer (signed64 payload)) 16 s)
        else (err 18, s))
    else if tag == 3
    then (ok tt, push_value (entity payload) 16 s)
    else if tag == 4
    then (if payload == 0
        then (if is_utf8 s.pending_text
            then (
              ok tt,
              push_value (text s.pending_text) (16 + length s.pending_text)
                  (record s { pending_text = [] }),
            )
            else (err 17, s))
        else (err 16, s))
    else (err 16, s)

unfoldable pub reply_value : ℕ → ℕ → Call Unit
unfolding value_of
reply_value tag payload s =
    if ltb packet_limit (assembled s + 16) then (err 5, s) else value_of tag payload s

-- The number that a host's answer spells, or 0.
number_or_zero : Option ℤ → ℤ
number_or_zero none = pos 0
number_or_zero (some n) = n

-- `pending_text.first() != Some(&b'0')`
is_accepted : Option ℕ → Bool
is_accepted none = true
is_accepted (some b) = not (b == b'0')

-- The reply, from what was asked and the verb, which is taken in every case.
line_reply : Call Reply
line_reply s =
    if is_utf8 s.pending_text
    then (ok (Reply.line (some s.pending_text)), record s { pending_text = [] })
    else (err 17, record s { pending_text = [] })

verb_reply : Option ℕ → Call Reply
unfolding line_reply
verb_reply (some verb) s =
    (ok (Reply.action verb s.pending_subjects), record s { pending_subjects = [] })
verb_reply none s = line_reply s

reply_for : Option Request → Option ℕ → Call Reply
unfolding is_accepted number_or_zero verb_reply
reply_for (some Request.host_action) verb s =
    (ok (Reply.accepted (is_accepted (head? s.pending_text))), s)
reply_for (some Request.engine_query) verb s = (
  ok (
      Reply.value (
        number_or_zero
          (if is_utf8 s.pending_text then parse_i64 s.pending_text else some (pos 0)))),
  s,
)
reply_for (some Request.command) verb s = verb_reply verb s
reply_for (some Request.line) verb s = verb_reply verb s
reply_for (some Request.key) verb s = verb_reply verb s
reply_for none verb s = verb_reply verb s

deliver : Answer Reply → Shared → Answer Unit × Shared
deliver (err e) s = (err e, s)
deliver (ok reply) s = (
  ok tt,
  record s {
    pending_text = [];
    pending_subjects = [];
    pending_size = 0;
    reply = some reply;
    request = none;
  },
)

unfoldable pub resume : Call Unit
unfolding reply_for deliver is_utf8 parse_i64
resume s =
    let (reply, s') = reply_for s.request s.pending_verb (record s { pending_verb = none }) in
    deliver reply s'

unfoldable pub close : Call Unit
close s = (ok tt, record s { closed = true; reply = some (Reply.line none); request = none })
