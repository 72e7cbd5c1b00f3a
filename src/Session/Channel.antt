-- ===== src/Session/Channel.antt =====
-- session.rs: the map of sessions and every call on it, in any order.
use zebulon_lang.Prelude.{
  subst, ℕ, zero, suc, ◌≡◌, refl, Option, none, some, List, [], ◌∷◌, arith, ok, ltb, ◌==◌,
  Bool-cases, inl, inr, ◌-◌, ◌^◌,
}
use zebulon_lang.Session.State.{
  Shared, Channel, with_session, discard, snapshot_token, or_fresh, put, fresh,
}
use zebulon_lang.Session.Transport.{publish}
use zebulon_lang.Session.Bounds.{Op, after, IsWithin, after-IsWithin}

-- A call on one session, or one of the calls that go by the map: output, tokens and removal.
pub data Call : Type 0 where
  on_session : ℕ → Op → Call
  publish_bytes : ℕ → List ℕ → Call
  token_of : ℕ → ℕ → Call
  forget_session : ℕ → Call

unfoldable pub call : Call → Channel → Channel
call (on_session slot op) c = (with_session slot (λ s. (ok tt, after op s)) c).1
call (publish_bytes slot bytes) c = (publish slot bytes c).1
call (token_of slot token) c = (snapshot_token slot token c).1
call (forget_session slot) c = (discard slot c).1

unfoldable pub calls : List Call → Channel → Channel
unfolding call
calls [] c = c
calls (x ∷ xs) c = calls xs (call x c)

-- A process that has no session yet.
abbrev pub no_sessions : ℕ → Channel
no_sessions counter = record { sessions = λ slot. none; next_snapshot = counter }

abbrev AreWithin : Channel → Type 0
AreWithin c = (slot : ℕ) (s : Shared) → c.sessions slot ≡ some s → IsWithin s

pub fresh-IsWithin : IsWithin fresh
fresh-IsWithin = record { packet = omega arith; counted = refl; stream = omega arith }

module _ (c : Channel) (w : AreWithin c) (slot : ℕ) where
  or_fresh-IsWithin : (here : Option Shared) → c.sessions slot ≡ here → IsWithin (or_fresh here)
  or_fresh-IsWithin none e = fresh-IsWithin
  or_fresh-IsWithin (some s) e = w slot s e

  put-AreWithin :
      (here : Option Shared)
      → ((s : Shared) → here ≡ some s → IsWithin s)
      → AreWithin (put slot here c)
  put-AreWithin here h other s e = elim (Bool-cases (slot == other)) [
    | inl same ↦ h s (rw same at e)
    | inr not_it ↦ w other s (rw not_it at e)
  ]

  put-AreWithin_kept : (s : Shared) → IsWithin s → AreWithin (put slot (some s) c)
  put-AreWithin_kept s v = put-AreWithin (some s) (λ u e. subst IsWithin (cc e) v)

  session-IsWithin : IsWithin (or_fresh (c.sessions slot))
  session-IsWithin = or_fresh-IsWithin (c.sessions slot) refl

publish-AreWithin :
    (c : Channel) → AreWithin c → (slot : ℕ) (bytes : List ℕ) → AreWithin (publish slot bytes c).1
unfolding publish with_session
publish-AreWithin c w slot [] = w
publish-AreWithin c w slot (b ∷ bs) =
    let v = session-IsWithin c w slot in
    put-AreWithin_kept c w slot _
      (record { packet = v.packet; counted = v.counted; stream = v.stream })

snapshot_token-AreWithin :
    (c : Channel) → AreWithin c → (slot token : ℕ) → AreWithin (snapshot_token slot token c).1
unfolding snapshot_token
snapshot_token-AreWithin c w slot zero =
    let v = session-IsWithin c w slot in
    elim (Bool-cases (ltb c.next_snapshot (2 ^ 31 - 1))) [
      | inl room ↦
          rw (room, snapshot_token)
            (put-AreWithin_kept c w slot _
              (record { packet = v.packet; counted = v.counted; stream = v.stream }))
      | inr spent ↦ rw (spent, snapshot_token) (put-AreWithin_kept c w slot _ v)
    ]
snapshot_token-AreWithin c w slot (suc token) =
    let v = session-IsWithin c w slot in
    elim (Bool-cases ((or_fresh (c.sessions slot)).snapshot == suc token)) [
      | inl same ↦ rw same (
          put-AreWithin_kept c w slot _
            (record { packet = v.packet; counted = v.counted; stream = v.stream }))
      | inr other ↦ rw other (put-AreWithin_kept c w slot _ v)
    ]

call-AreWithin : (x : Call) (c : Channel) → AreWithin c → AreWithin (call x c)
unfolding call with_session discard
call-AreWithin (on_session slot op) c w =
    put-AreWithin_kept c w slot _ (after-IsWithin op _ (session-IsWithin c w slot))
call-AreWithin (publish_bytes slot bytes) c w = publish-AreWithin c w slot bytes
call-AreWithin (token_of slot token) c w = snapshot_token-AreWithin c w slot token
call-AreWithin (forget_session slot) c w = put-AreWithin c w slot none (λ s e. cc e)

calls-AreWithin : (xs : List Call) (c : Channel) → AreWithin c → AreWithin (calls xs c)
unfolding calls
calls-AreWithin [] c w = w
calls-AreWithin (x ∷ xs) c w = calls-AreWithin xs (call x c) (call-AreWithin x c w)

-- Whatever calls the worker and the host make on the sessions of a process, in any order, from a
-- process without sessions on: in every session the text and the arguments that the host has
-- assembled are within one packet, their count is in step with the arguments themselves, and the
-- event stream is within one packet. The calls are those of the model, and each holds the lock.
pub calls-IsWithin :
    (xs : List Call) (counter slot : ℕ) {s : Shared}
    → (calls xs (no_sessions counter)).sessions slot ≡ some s
    → IsWithin s
calls-IsWithin xs counter slot {s} e =
    calls-AreWithin xs (no_sessions counter) (λ other u absent. cc absent) slot s e
