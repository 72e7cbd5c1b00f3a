-- ===== src/Session/Tests.antt =====
-- session.rs: the theorems on small sessions.
use zebulon_lang.Prelude.{
  ℕ, ◌≡◌, refl, true, false, some, none, List, [], ◌∷◌, ◌++◌, arith, length, ok,
}
use zebulon_lang.Prelude.Bytes.{le_bytes, is_utf8}
use zebulon_lang.Session.State.{Request, Reply, Shared, Channel, fresh, or_fresh, with_session}
use zebulon_lang.Session.Events.{last_event, event, event_subject, world_resync}
use zebulon_lang.Session.Replies.{resume, assembled}
use zebulon_lang.Session.Transport.{take_reply, persistence, publish, append_output}
use zebulon_lang.Session.Bounds.{IsWithin, start_event, persist, reset_session}
use zebulon_lang.Session.Channel.{
  Call, on_session, publish_bytes, call, calls, no_sessions, calls-IsWithin,
}
use zebulon_lang.Session.Transfer.{IsUnderWay, transfer-IsUnderWay}
use zebulon_lang.Session.Records.{
  Record, encode, stream, last_event-stream, words_of, value_part, body,
}
use zebulon_lang.Session.Stream.{IsView, begun, event-IsView, event_subject-IsView}
use zebulon_lang.Session.Exchange.{type_bytes, upload, resume-type_bytes, restore-upload}

-- A session that has an event and some output.
abbrev reported : List Call
reported = on_session 3 (start_event world_resync) ∷ publish_bytes 3 (1 ∷ 2 ∷ []) ∷ []

abbrev session_three : Shared
session_three = or_fresh ((calls reported (no_sessions 1)).sessions 3)

calls_example : IsWithin session_three
unfolding calls call with_session publish append_output
calls_example = calls-IsWithin reported 1 3 {s = session_three} refl

-- Two records: one with two entities, then one with none.
abbrev moved : Record
moved = record { id = 1 ∷ 2 ∷ 3 ∷ []; subjects = 7 ∷ 8 ∷ []; values = [] }

last_event_example :
    last_event (stream (moved ∷ []) ++ encode (begun world_resync))
    ≡ some (length (stream (moved ∷ [])))
unfolding stream encode le_bytes body words_of value_part
last_event_example = last_event-stream (moved ∷ []) (begun world_resync) (omega arith)

event_example :
    (u : Shared) × (event world_resync fresh ≡ (ok tt, u)) × IsView [] (begun world_resync) u
unfolding stream
event_example = event-IsView [] world_resync fresh refl (omega arith) (omega arith) (omega arith)

abbrev resynced : Shared
resynced = record fresh { events = encode (begun world_resync) }

event_subject_example :
    (u : Shared) × (event_subject 9 resynced ≡ (ok tt, u))
    × IsView [] (record (begun world_resync) { subjects = 9 ∷ [] }) u
unfolding stream encode le_bytes body words_of value_part
event_subject_example =
    event_subject-IsView [] (begun world_resync) 9 resynced (record { bytes = refl; marked = refl })
      refl (omega arith)

-- "look", for a session that asks for a command.
abbrev look : List ℕ
look = b'l' ∷ b'o' ∷ b'o' ∷ b'k' ∷ []

abbrev asking : Shared
asking = record fresh { request = some Request.command }

resume_example :
    let (answer, u) = resume (type_bytes look asking) in
    (answer ≡ ok tt)
    × ((take_reply u).0 ≡ some (Reply.line (some look)))
    × (u.request ≡ none)
    × (assembled u ≡ 0)
unfolding is_utf8
resume_example = resume-type_bytes look asking refl refl refl (omega arith) refl

restore_example :
    let (answer, u) = persistence 3 0 (upload (1 ∷ 2 ∷ []) (persistence 0 0 asking).1) in
    (answer ≡ ok 0)
    × ((take_reply u).0 ≡ some (Reply.persistence true (1 ∷ 2 ∷ [])))
    × (u.save_busy ≡ true)
    × (u.request ≡ none)
restore_example =
    restore-upload (1 ∷ 2 ∷ []) asking (omega arith, (omega arith, tt)) (omega arith) refl refl

-- A save that begins in session 3 while session 4 starts an event and another save of 3 is asked for.
abbrev between : List Call
between =
    on_session 4 (start_event world_resync)
    ∷ on_session 3 (persist 2 0)
    ∷ publish_bytes 3 look
    ∷ on_session 4 reset_session
    ∷ []

abbrev asking_sessions : Channel
asking_sessions = record { sessions = λ slot. some asking; next_snapshot = 1 }

transfer_example :
    (u : Shared) × ((calls between (call (on_session 3 (persist 2 0)) asking_sessions)).sessions 3
      ≡ some u)
    × IsUnderWay u
transfer_example =
    transfer-IsUnderWay between asking_sessions 3 false 0 {s = asking} refl refl refl
      (refl, (refl, (refl, (refl, tt))))
