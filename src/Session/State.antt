-- ===== src/Session/State.antt =====
-- session.rs, the shared state: one record for each session, by its slot. An error is the `u32`
-- code that the host sees.
use zebulon_lang.Prelude.{
  ℕ, zero, suc, ◌+◌, Bool, false, Option, none, some, List, [], ◌==◌, if◌then◌else◌, Result, ok,
  err, ltb, ◌^◌, ◌-◌,
}
use zebulon_lang.Prelude.Exec.{Method}
use zebulon_lang.Prelude.Int.{ℤ}

abbrev pub packet_limit : ℕ
packet_limit = 65_536

pub data Scalar : Type 0 where
  nil true_value : Scalar
  integer : ℤ → Scalar
  entity : ℕ → Scalar
  text : List ℕ → Scalar

pub data Request : Type 0 where
  command line key host_action engine_query : Request

-- `Request::code`
unfoldable pub code : Request → ℕ
code line = 0
code command = 0
code key = 1
code host_action = 3
code engine_query = 4

pub data Reply : Type 0 where
  persistence : Bool → List ℕ → Reply
  line : Option (List ℕ) → Reply
  action : ℕ → List Scalar → Reply
  accepted : Bool → Reply
  value : ℤ → Reply

pub record Shared : Type 0 where
  pub request : Option Request
  pub reply : Option Reply
  pub pending_text : List ℕ
  pub save_bytes : List ℕ
  pub save_status : ℕ
  pub save_busy : Bool
  pub pending_verb : Option ℕ
  pub pending_subjects : List Scalar
  pub pending_size : ℕ
  pub snapshot : ℕ
  pub event_values : Option ℕ
  pub output : List ℕ
  pub events : List ℕ
  pub results : List ℕ
  pub closed : Bool
  pub inspection : Option (ℕ × ℕ × ℕ)
  pub finished : Option ℕ

-- `Shared::default()`
abbrev pub fresh : Shared
fresh = record {
  request = none;
  reply = none;
  pending_text = [];
  save_bytes = [];
  save_status = 0;
  save_busy = false;
  pending_verb = none;
  pending_subjects = [];
  pending_size = 0;
  snapshot = 0;
  event_values = none;
  output = [];
  events = [];
  results = [];
  closed = false;
  inspection = none;
  finished = none;
}

-- A call on one session. Its lock is held for the whole call.
abbrev pub Call : Type 0 → Type 0
Call A = Method Shared ℕ A

-- What a call answers: a value, or the host's error code.
abbrev pub Answer : Type 0 → Type 0
Answer A = Result ℕ A

-- The map of sessions, and the process-wide counter of snapshots.
pub record Channel : Type 0 where
  pub sessions : ℕ → Option Shared
  pub next_snapshot : ℕ

abbrev pub or_fresh : Option Shared → Shared
or_fresh none = fresh
or_fresh (some shared) = shared

abbrev pub put : ℕ → Option Shared → Channel → Channel
put slot shared c = record c {
  sessions = λ other. if slot == other then shared else c.sessions other;
}

-- `with`: a session is there from its first use on, also where the call fails.
unfoldable pub with_session : {A : Type 0} → ℕ → Call A → Channel → Answer A × Channel
with_session slot act c =
    let (answer, shared) = act (or_fresh (c.sessions slot)) in (answer, put slot (some shared) c)

unfoldable pub reset : Call Unit
reset s = (ok tt, fresh)

unfoldable pub discard : ℕ → Channel → Answer Unit × Channel
discard slot c = (ok tt, put slot none c)

-- `read`: an unknown session answers `absent`, and is not made.
unfoldable pub read : {A : Type 0} → ℕ → (Shared → A) → A → Channel → A
read slot act absent c = elim (c.sessions slot) [ none ↦ absent | some shared ↦ act shared ]

-- `next_snapshot`: the counter stops below `i32::MAX`.
unfoldable pub next_snapshot : ℕ → Answer ℕ × ℕ
next_snapshot n = if ltb n (2 ^ 31 - 1) then (ok n, n + 1) else (err 18, n)

-- `snapshot_token`: token 0 issues a token, any other one is checked and consumed.
unfoldable pub snapshot_token : ℕ → ℕ → Channel → Answer ℕ × Channel
unfolding next_snapshot
snapshot_token slot zero c =
    let (next, counter) = next_snapshot c.next_snapshot in
    let shared = or_fresh (c.sessions slot) in
    elim next [
      | err e ↦ (err e, record (put slot (some shared) c) { next_snapshot = counter })
      | ok n ↦ (
        ok n,
        record (put slot (some (record shared { snapshot = n })) c) { next_snapshot = counter },
      )
    ]
snapshot_token slot (suc token) c =
    let shared = or_fresh (c.sessions slot) in
    if shared.snapshot == suc token
    then (ok 1, put slot (some (record shared { snapshot = 0 })) c)
    else (ok 0, put slot (some shared) c)
