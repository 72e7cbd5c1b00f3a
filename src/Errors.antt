-- ===== src/Errors.antt =====
-- crates/zeb-runtime/src/objects.rs, `Error` and `ObjectRef`: what the runtime's components share.
-- Reservations of memory succeed in the model, so no operation answers `allocation`.
use zebulon_lang.Prelude.{
  ℕ, ◌+◌, ◌*◌, ◌%◌, ◌^◌, ◌<◌, ◌≡◌, refl, ◌↔◌, Bool, true, false, ◌&&◌, ◌||◌, List, [], ◌∷◌, arith,
  ◌==◌, Result,
}

pub data Error : Type 0 where
  foreign_session expired not_owned ownership_cycle inheritance_cycle : Error
  initialization_cycle wrong_type invalid_argument numeric_overflow : Error
  resource_limit allocation identity_exhausted terminal : Error

-- A call that only reads, and one on `&mut self`.
abbrev pub Answer : Type 0 → Type 0
Answer A = Result Error A

pub record ObjectRef : Type 0 where
  pub session : ℕ
  pub logical : ℕ
  pub incarnation : ℕ

-- `(logical & 0xffff_ffff) | (incarnation << 32)`: the two halves share no bit, and a shift of a
-- `u64` drops what leaves the word.
unfoldable pub handle : ObjectRef → ℕ
handle r = r.logical % 2 ^ 32 + r.incarnation * 2 ^ 32 % 2 ^ 64

-- The derived `PartialEq`.
unfoldable pub ref_eq : ObjectRef → ObjectRef → Bool
ref_eq a b = a.session == b.session && a.logical == b.logical && a.incarnation == b.incarnation

-- `contains(&r)` of a `Vec` of references, and of a set of them.
unfoldable pub mem : List ObjectRef → ObjectRef → Bool
mem [] r = false
mem (x ∷ xs) r = ref_eq x r || mem xs r

-- A reference that a store of session `s` can have issued before its counters leave 32 bits.
pub record IsIssued (s : ℕ) (r : ObjectRef) : Type 0 where
  pub here : r.session ≡ s
  pub logical_fits : r.logical < 2 ^ 32
  pub incarnation_fits : r.incarnation < 2 ^ 32

pub ref_eq_iff : (a b : ObjectRef) → (ref_eq a b ≡ true) ↔ (a ≡ b)
unfolding ref_eq
ref_eq_iff a b = ground arith

pub reference_ext :
    (a b : ObjectRef)
    → a.session ≡ b.session
    → a.logical ≡ b.logical
    → a.incarnation ≡ b.incarnation
    → a ≡ b
reference_ext a b e f g = cc (e, f, g)

pub ref_eq_self : (a : ObjectRef) → ref_eq a a ≡ true
ref_eq_self a = (ref_eq_iff a a).1 refl

-- Within one session a handle names one reference.
pub handle-injective :
    {s : ℕ} (a b : ObjectRef) → IsIssued s a → IsIssued s b → handle a ≡ handle b → a ≡ b
unfolding handle
handle-injective a b ha hb e = ground arith
