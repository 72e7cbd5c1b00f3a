-- ===== src/Session/Exchange.antt =====
-- session.rs: what a host types, or uploads, reaches the worker that waits for it.
use zebulon_lang.Prelude.{
  ℕ, ◌+◌, ◌≤◌, ◌<◌, ◌≡◌, refl, sym, ap, ◌∙◌, Bool, true, false, Option, none, some, List, [], ◌∷◌,
  ◌++◌, append_assoc, append-nil, arith, length, length-append, leb, ok,
}
use zebulon_lang.Prelude.Bytes.{is_utf8}
use zebulon_lang.Session.State.{Answer, Request, Reply, Shared, packet_limit}
use zebulon_lang.Session.Replies.{assembled, reply_byte, resume}
use zebulon_lang.Session.Transport.{take_reply, persistence, at_boundary, max_bytes}

-- The host types some bytes.
unfoldable pub type_bytes : List ℕ → Shared → Shared
type_bytes [] s = s
type_bytes (b ∷ bs) s = type_bytes bs (reply_byte b s).1

type_bytes_lem :
    (bs : List ℕ) (s : Shared)
    → assembled s + length bs ≤ packet_limit
    → type_bytes bs s ≡ record s { pending_text = s.pending_text ++ bs }
unfolding type_bytes reply_byte
type_bytes_lem [] s h = ap (λ l. record s { pending_text = l }) (sym (append-nil s.pending_text))
type_bytes_lem (b ∷ bs) s h =
    let room : leb packet_limit (assembled s) ≡ false = ground arith in
    let longer = length-append s.pending_text (b ∷ []) in
    rw room (
      type_bytes_lem bs (record s { pending_text = s.pending_text ++ b ∷ [] }) (omega arith)
      ∙ ap (λ l. record s { pending_text = l }) (append_assoc s.pending_text (b ∷ []) bs))

-- Which requests a text answers.
abbrev pub asks_text : Option Request → Bool
asks_text (some Request.line) = true
asks_text (some Request.command) = true
asks_text (some Request.key) = true
asks_text _ = false

-- The state that a text leaves: the reply, and nothing assembled.
abbrev pub replied : Reply → Shared → Shared
replied reply s = record s {
  pending_text = [];
  pending_subjects = [];
  pending_size = 0;
  pending_verb = none;
  reply = some reply;
  request = none;
}

resume_text :
    (r : Option Request) (s : Shared)
    → s.request ≡ r
    → asks_text r ≡ true
    → s.pending_verb ≡ none
    → is_utf8 s.pending_text ≡ true
    → resume s ≡ (ok tt, replied (Reply.line (some s.pending_text)) s)
unfolding resume
resume_text none s e asked no_verb valid = cc
resume_text (some Request.host_action) s e asked no_verb valid = cc
resume_text (some Request.engine_query) s e asked no_verb valid = cc
resume_text (some Request.command) s e asked no_verb valid = simp (e, no_verb, valid) refl
resume_text (some Request.line) s e asked no_verb valid = simp (e, no_verb, valid) refl
resume_text (some Request.key) s e asked no_verb valid = simp (e, no_verb, valid) refl

-- A text of UTF-8 for which the packet has room, typed byte by byte into a session that asks for
-- text and has neither text nor a verb pending, and then resumed, is what the worker takes, and the
-- request is no longer pending.
pub resume-type_bytes :
    (bs : List ℕ) (s : Shared)
    → asks_text s.request ≡ true
    → s.pending_verb ≡ none
    → s.pending_text ≡ []
    → s.pending_size + length bs ≤ packet_limit
    → is_utf8 bs ≡ true
    → let (answer, u) = resume (type_bytes bs s) in
      (answer ≡ ok tt)
      × ((take_reply u).0 ≡ some (Reply.line (some bs)))
      × (u.request ≡ none)
      × (assembled u ≡ 0)
unfolding take_reply
resume-type_bytes bs s asked no_verb no_text room valid =
    let typed : type_bytes bs s ≡ record s { pending_text = bs } =
      type_bytes_lem bs s (rw no_text (omega arith))
      ∙ ap (λ l. record s { pending_text = l ++ bs }) no_text in
    let resumed : resume (record s { pending_text = bs })
        ≡ (ok tt, replied (Reply.line (some bs)) (record s { pending_text = bs })) =
      resume_text s.request (record s { pending_text = bs }) refl asked no_verb valid in
    rw (typed, resumed) (refl, refl, refl, refl)

-- The host uploads some bytes, call by call.
unfoldable pub upload : List ℕ → Shared → Shared
upload [] s = s
upload (b ∷ bs) s = upload bs (persistence 1 b s).1

abbrev pub AreBytes : List ℕ → Type 0
AreBytes [] = Unit
AreBytes (b ∷ bs) = (b < 256) × AreBytes bs

append_step :
    (b : ℕ) (s : Shared)
    → b < 256
    → s.save_busy ≡ false
    → length s.save_bytes < max_bytes
    → persistence 1 b s ≡ (ok 0, record s { save_bytes = s.save_bytes ++ b ∷ [] })
unfolding persistence
append_step b s small idle room =
    let a_byte : leb 256 b ≡ false = ground arith in
    let room' : leb max_bytes (length s.save_bytes) ≡ false = ground arith in
    simp (idle, a_byte, room') refl

clear_step :
    (s : Shared)
    → s.save_busy ≡ false
    → persistence 0 0 s ≡ (ok 0, record s { save_bytes = []; save_status = 0 })
unfolding persistence
clear_step s idle = simp idle refl

restore_step :
    (s : Shared)
    → s.save_busy ≡ false
    → at_boundary s ≡ true
    → persistence 3 0 s ≡ (
      ok 0,
      record s {
        save_bytes = [];
        save_busy = true;
        request = none;
        reply = some (Reply.persistence true s.save_bytes);
      },
    )
unfolding persistence
restore_step s idle boundary = simp (idle, boundary) refl

upload_lem :
    (bs : List ℕ) (s : Shared)
    → AreBytes bs
    → s.save_busy ≡ false
    → length s.save_bytes + length bs ≤ max_bytes
    → upload bs s ≡ record s { save_bytes = s.save_bytes ++ bs }
unfolding upload
upload_lem [] s v idle h = ap (λ l. record s { save_bytes = l }) (sym (append-nil s.save_bytes))
upload_lem (b ∷ bs) s (vb, v) idle h =
    let longer = length-append s.save_bytes (b ∷ []) in
    ap (λ (p : Answer ℕ × Shared). upload bs p.1) (append_step b s vb idle (omega arith))
    ∙ upload_lem bs (record s { save_bytes = s.save_bytes ++ b ∷ [] }) v idle (omega arith)
    ∙ ap (λ l. record s { save_bytes = l }) (append_assoc s.save_bytes (b ∷ []) bs)

-- An image that the host clears the buffer for and uploads byte by byte, while no transfer is under
-- way, and asks to restore at a command boundary, is what the worker takes; from there the transfer
-- is under way.
pub restore-upload :
    (bs : List ℕ) (s : Shared)
    → AreBytes bs
    → length bs ≤ max_bytes
    → s.save_busy ≡ false
    → at_boundary s ≡ true
    → let (answer, u) = persistence 3 0 (upload bs (persistence 0 0 s).1) in
      (answer ≡ ok 0)
      × ((take_reply u).0 ≡ some (Reply.persistence true bs))
      × (u.save_busy ≡ true)
      × (u.request ≡ none)
unfolding take_reply
restore-upload bs s v short idle boundary =
    let uploaded =
      upload_lem bs (record s { save_bytes = []; save_status = 0 }) v idle (omega arith) in
    let begun = restore_step (record s { save_bytes = bs; save_status = 0 }) idle boundary in
    rw (clear_step s idle, uploaded, begun) (refl, refl, refl, refl)
