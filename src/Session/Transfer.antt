-- ===== src/Session/Transfer.antt =====
-- session.rs, `persistence` and `saved`: a save or a restore from its start to the worker's answer.
use zebulon_lang.Prelude.Bytes.{is_utf8}
use zebulon_lang.Prelude.Int.{signed64, fits_i32}
use zebulon_lang.Prelude.{
  get_elem?, ◌+◌, ◌++◌, ℕ, zero, suc, ◌≡◌, refl, sym, ap, ◌∙◌, Bool, true, false, ◌&&◌, some, List,
  [], ◌∷◌, arith, ok, err, ltb, ◌==◌, ==_iff, ==_self, Bool-cases, inl, inr, ◌-◌, ◌^◌,
  if◌then◌else◌, length, subst,
}
use zebulon_lang.Session.State.{
  packet_limit, Answer, Shared, Channel, with_session, discard, snapshot_token, or_fresh, put,
}
use zebulon_lang.Session.Events.{event, event_subject, event_value, resync, restored}
use zebulon_lang.Session.Replies.{
  push_value, assembled, value_of, reply_byte, reply_action, reply_subject, reply_value, resume,
  close,
}
use zebulon_lang.Session.Transport.{
  byte_or, publish, append_output, persistence, saved, at_boundary, post, take_reply,
  publish_results, take_inspection, finish, drained, inspect,
}
use zebulon_lang.Session.Bounds.{Op, after}
use zebulon_lang.Session.Channel.{Call, call, calls}

-- What ends a transfer: the worker's answer to it, or a new start of the session.
abbrev pub ends_op : Op → Bool
ends_op Op.reset_session = true
ends_op (Op.persisted answer) = true
ends_op _ = false

abbrev pub ends : ℕ → Call → Bool
ends slot (Call.on_session other op) = other == slot && ends_op op
ends slot (Call.forget_session other) = other == slot
ends slot (Call.publish_bytes other bytes) = false
ends slot (Call.token_of other token) = false

-- None of the calls ends the transfer of the session.
abbrev pub NoneEnds : ℕ → List Call → Type 0
NoneEnds slot [] = Unit
NoneEnds slot (x ∷ xs) = (ends slot x ≡ false) × NoneEnds slot xs

abbrev pub IsBusy : Shared → Type 0
IsBusy s = s.save_busy ≡ true

busy_refused :
    (op value : ℕ) (s : Shared)
    → IsBusy s
    → persistence op value s ≡ (if op == 4 then ok 10 else err 10, s)
unfolding persistence
busy_refused op value s busy = elim (Bool-cases (op == 4)) [
  | inl four ↦ simp (busy, four) refl
  | inr other ↦ simp (busy, other) refl
]

-- A call that leaves the mark of a transfer alone.
record Keeps (s : Shared) (x : Answer Unit × Shared) : Type 0 where
  same : x.1.save_busy ≡ s.save_busy

if-Keeps :
    (b : Bool) {x y : Answer Unit × Shared} {s : Shared}
    → Keeps s x
    → Keeps s y
    → Keeps s (if b then x else y)
if-Keeps true p q = p
if-Keeps false p q = q

value_of-Keeps : (tag payload : ℕ) (s : Shared) → Keeps s (value_of tag payload s)
unfolding value_of push_value
value_of-Keeps tag payload s =
    if-Keeps (tag == 0) (if-Keeps (payload == 0) (record { same = refl }) (record { same = refl }))
      (if-Keeps (tag == 1)
        (if-Keeps (payload == 0) (record { same = refl }) (record { same = refl }))
        (if-Keeps (tag == 2)
          (if-Keeps (fits_i32 (signed64 payload)) (record { same = refl }) (record { same = refl }))
          (if-Keeps (tag == 3) (record { same = refl })
            (if-Keeps (tag == 4)
              (if-Keeps (payload == 0)
                (if-Keeps (is_utf8 s.pending_text) (record { same = refl })
                  (record { same = refl }))
                (record { same = refl }))
              (record { same = refl })))))

reply_value-Keeps : (tag payload : ℕ) (s : Shared) → Keeps s (reply_value tag payload s)
unfolding reply_value
reply_value-Keeps tag payload s =
    if-Keeps (ltb packet_limit (assembled s + 16)) (record { same = refl })
      (value_of-Keeps tag payload s)

after-IsBusy : (op : Op) (s : Shared) → ends_op op ≡ false → IsBusy s → IsBusy (after op s)
unfolding post take_reply publish_results take_inspection finish drained event event_subject
    event_value resync restored reply_byte reply_action reply_subject reply_value resume close
    inspect
after-IsBusy Op.reset_session s h b = cc h
after-IsBusy (Op.persisted answer) s h b = cc h
after-IsBusy (Op.persist op value) s h b =
    ap (λ (x : _ × Shared). x.1.save_busy) (busy_refused op value s b) ∙ b
after-IsBusy (Op.post_request request bytes) s h b = b
after-IsBusy Op.take s h b = ground arith
after-IsBusy (Op.publish_numbers values) s h b = b
after-IsBusy Op.take_question s h b = b
after-IsBusy (Op.finish_with n) s h b = b
after-IsBusy Op.drain s h b = b
after-IsBusy (Op.start_event id) s h b = ground arith
after-IsBusy (Op.name_subject handle) s h b = ground arith
after-IsBusy (Op.name_value tag bytes) s h b = ground arith
after-IsBusy Op.resync_world s h b = ground arith
after-IsBusy Op.restore_world s h b = ground arith
after-IsBusy (Op.byte v) s h b = ground arith
after-IsBusy (Op.verb v) s h b = b
after-IsBusy (Op.subject handle) s h b = ground arith
after-IsBusy (Op.argument tag payload) s h b = (reply_value-Keeps tag payload s).same ∙ b
after-IsBusy Op.deliver_reply s h b = ground arith
after-IsBusy Op.close_input s h b = b
after-IsBusy (Op.ask kind x y) s h b = ground arith

-- The session is there, and a transfer is under way.
record Transferring (slot : ℕ) (c : Channel) : Type 0 where
  pub here : (s : Shared) × (c.sessions slot ≡ some s) × IsBusy s

module _ (c : Channel) (slot : ℕ) (t : Transferring slot c) where
  put-Transferring :
      (other : ℕ) (f : Shared → Shared)
      → (other == slot ≡ true → (s : Shared) → IsBusy s → IsBusy (f s))
      → Transferring slot (put other (some (f (or_fresh (c.sessions other)))) c)
  put-Transferring other f keep =
      let (s, at, busy) = t.here in
      elim (Bool-cases (other == slot)) [
        | inl same ↦
            let is : other ≡ slot = (==_iff other slot).0 same in
            let found : or_fresh (c.sessions other) ≡ s =
              ap (λ n. or_fresh (c.sessions n)) is ∙ ap or_fresh at in
            record {
              here = (
                f (or_fresh (c.sessions other)),
                rw same refl,
                keep same _ (subst IsBusy (sym found) busy),
              );
            }
        | inr apart ↦ record { here = (s, rw apart at, busy) }
      ]

  token-Transferring : (other token : ℕ) → Transferring slot (snapshot_token other token c).1
  unfolding snapshot_token
  token-Transferring other zero = elim (Bool-cases (ltb c.next_snapshot (2 ^ 31 - 1))) [
    | inl room ↦
        rw (room, snapshot_token)
          record {
            here =
                (put-Transferring other (λ s. record s { snapshot = c.next_snapshot })
                  (λ same s busy. busy)).here;
          }
    | inr spent ↦
        rw (spent, snapshot_token)
          record { here = (put-Transferring other (λ s. s) (λ same s busy. busy)).here }
  ]
  token-Transferring other (suc token) =
      elim (Bool-cases ((or_fresh (c.sessions other)).snapshot == suc token)) [
        | inl same ↦
            rw same (put-Transferring other (λ s. record s { snapshot = 0 }) (λ at s busy. busy))
        | inr differs ↦ rw differs (put-Transferring other (λ s. s) (λ at s busy. busy))
      ]

  call-Transferring : (x : Call) → ends slot x ≡ false → Transferring slot (call x c)
  unfolding call with_session publish append_output discard
  call-Transferring (Call.on_session other op) h =
      put-Transferring other (after op) (λ same s b. after-IsBusy op s (ground (arith, same, h)) b)
  call-Transferring (Call.publish_bytes other []) h = t
  call-Transferring (Call.publish_bytes other (b ∷ bs)) h =
      put-Transferring other (λ s. record s { output = s.output ++ b ∷ bs }) (λ same s busy. busy)
  call-Transferring (Call.token_of other token) h = token-Transferring other token
  call-Transferring (Call.forget_session other) h =
      let (s, at, busy) = t.here in record { here = (s, rw h at, busy) }

calls-Transferring :
    (xs : List Call) (c : Channel) (slot : ℕ)
    → NoneEnds slot xs
    → Transferring slot c
    → Transferring slot (calls xs c)
unfolding calls
calls-Transferring [] c slot h t = t
calls-Transferring (x ∷ xs) c slot h t =
    calls-Transferring xs (call x c) slot h.1 (call-Transferring c slot t x h.0)

begin-IsBusy :
    (restore : Bool) (value : ℕ) (s : Shared)
    → s.save_busy ≡ false
    → at_boundary s ≡ true
    → IsBusy (persistence (if restore then 3 else 2) value s).1
unfolding persistence
begin-IsBusy true value s idle boundary = simp (idle, boundary) refl
begin-IsBusy false value s idle boundary = simp (idle, boundary) refl

-- How the transfer of a session shows: other requests are refused and change nothing, the status is
-- `busy`, and the worker's answer ends it, with its error as the status, or with its bytes to read.
pub record IsUnderWay (s : Shared) : Type 0 where
  pub refused : (op value : ℕ) → persistence op value s ≡ (if op == 4 then ok 10 else err 10, s)
  pub failed : (e value : ℕ) → (persistence 4 value (saved (err e) s).1).0 ≡ ok e
  pub done : (bytes : List ℕ) (value : ℕ) → (persistence 4 value (saved (ok bytes) s).1).0 ≡ ok 0
  pub length_of :
      (bytes : List ℕ) (value : ℕ)
      → (persistence 5 value (saved (ok bytes) s).1).0 ≡ ok (length bytes)
  pub byte_of :
      (bytes : List ℕ) (index : ℕ)
      → (persistence 6 index (saved (ok bytes) s).1).0 ≡ ok (byte_or 256 (get_elem? bytes index))

busy-IsUnderWay : (s : Shared) → IsBusy s → IsUnderWay s
unfolding persistence saved
busy-IsUnderWay s busy = record {
  refused = λ op value. busy_refused op value s busy;
  failed = λ e value. refl;
  done = λ bytes value. refl;
  length_of = λ bytes value. refl;
  byte_of = λ bytes index. refl;
}

-- A save or a restore that the host begins at a command boundary of a session, while no transfer is
-- under way there, stays under way through whatever calls follow on this session and on others, but
-- for the worker's answer to it, a reset and a removal of the session: until then a request other
-- than the one for the status is refused as busy and changes nothing, and the status is busy. The
-- worker's answer ends it: the status is then its error, or 0, with the length and each byte of the
-- answer there to read.
pub transfer-IsUnderWay :
    (xs : List Call) (c : Channel) (slot : ℕ) (restore : Bool) (value : ℕ) {s : Shared}
    → c.sessions slot ≡ some s
    → s.save_busy ≡ false
    → at_boundary s ≡ true
    → NoneEnds slot xs
    → let begun = call (Call.on_session slot (Op.persist (if restore then 3 else 2) value)) c in
      (u : Shared) × ((calls xs begun).sessions slot ≡ some u) × IsUnderWay u
unfolding call with_session
transfer-IsUnderWay xs c slot restore value {s} here idle boundary quiet =
    let op : Op = Op.persist (if restore then 3 else 2) value in
    let found : or_fresh (c.sessions slot) ≡ s = ap or_fresh here in
    let busy : IsBusy (after op (or_fresh (c.sessions slot))) =
      subst (λ x. IsBusy (after op x)) (sym found) (begin-IsBusy restore value s idle boundary) in
    let start : Transferring slot (call (Call.on_session slot op) c) = record {
      here = (after op (or_fresh (c.sessions slot)), rw (==_self slot) refl, busy);
    } in
    let t = calls-Transferring xs (call (Call.on_session slot op) c) slot quiet start in
    (t.here.0, t.here.1, busy-IsUnderWay t.here.0 t.here.2)
