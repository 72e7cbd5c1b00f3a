-- ===== src/Prelude/Bytes.antt =====
-- Little-endian words (`to_le_bytes`, `from_le_bytes`) over bytes as numbers, and the check that
-- `std::str::from_utf8` makes.
use Prim.Native.Nat.{ℕ, zero, suc, ◌+◌, ◌*◌, ◌/◌, ◌%◌, ◌^◌, ◌<◌}
use mathlib.Core.Path.{◌≡◌, refl, ap}
use mathlib.Core.Bool.{Bool, true, false, ◌&&◌}
use mathlib.Core.List.{List, [], ◌∷◌}
use native.Mathlib.Omega.{arith}
use mathlib.Core.Option.{Option, none, some}
use native.Mathlib.Nat.{pow-succ'}
use zebulon_lang.Prelude.Tests.{leb, ◌==◌, if◌then◌else◌}
use zebulon_lang.Prelude.Lists.{length}

abbrev pub usize_mod : ℕ
usize_mod = 2 ^ 64

unfoldable pub le_bytes : ℕ → ℕ → List ℕ
le_bytes zero n = []
le_bytes (suc k) n = n % 256 ∷ le_bytes k (n / 256)

unfoldable pub of_le_bytes : List ℕ → ℕ
of_le_bytes [] = 0
of_le_bytes (b ∷ bs) = b + 256 * of_le_bytes bs

pub length-le_bytes : (k n : ℕ) → length (le_bytes k n) ≡ k
unfolding le_bytes
length-le_bytes zero n = refl
length-le_bytes (suc k) n = ap suc (length-le_bytes k (n / 256))

pub of_le_bytes-le_bytes : (k n : ℕ) → n < 256 ^ k → of_le_bytes (le_bytes k n) ≡ n
unfolding le_bytes of_le_bytes
of_le_bytes-le_bytes zero n h = omega arith
of_le_bytes-le_bytes (suc k) n h =
    let below : n < 256 * 256 ^ k = rw (pow-succ' 256 k) at h in
    omega (arith, of_le_bytes-le_bytes k (n / 256) (omega arith))

-- What must follow a leading byte: a range for each continuation byte. `none` is no leading byte.
utf8_tail : ℕ → Option (List (ℕ × ℕ))
utf8_tail b =
    if leb b 0x7f
    then some []
    else if leb 0xc2 b && leb b 0xdf
    then some ((0x80, 0xbf) ∷ [])
    else if b == 0xe0
    then some ((0xa0, 0xbf) ∷ (0x80, 0xbf) ∷ [])
    else if b == 0xed
    then some ((0x80, 0x9f) ∷ (0x80, 0xbf) ∷ [])
    else if leb 0xe1 b && leb b 0xef
    then some ((0x80, 0xbf) ∷ (0x80, 0xbf) ∷ [])
    else if b == 0xf0
    then some ((0x90, 0xbf) ∷ (0x80, 0xbf) ∷ (0x80, 0xbf) ∷ [])
    else if leb 0xf1 b && leb b 0xf3
    then some ((0x80, 0xbf) ∷ (0x80, 0xbf) ∷ (0x80, 0xbf) ∷ [])
    else if b == 0xf4
    then some ((0x80, 0x8f) ∷ (0x80, 0xbf) ∷ (0x80, 0xbf) ∷ [])
    else none

-- The first argument holds the ranges that the bytes to come still have to meet.
utf8_from : List (ℕ × ℕ) → List ℕ → Bool
unfolding utf8_tail
utf8_from [] [] = true
utf8_from (r ∷ rs) [] = false
utf8_from ((lo, hi) ∷ rs) (b ∷ bs) = leb lo b && leb b hi && utf8_from rs bs
utf8_from [] (b ∷ bs) = elim (utf8_tail b) [ none ↦ false | some rs ↦ utf8_from rs bs ]

-- `std::str::from_utf8(bytes).is_ok()`
unfoldable pub is_utf8 : List ℕ → Bool
unfolding utf8_from
is_utf8 = utf8_from []

utf8_samples :
    (is_utf8 (0x61 ∷ 0xc3 ∷ 0xa9 ∷ 0xf0 ∷ 0x9f ∷ 0x98 ∷ 0x80 ∷ []) ≡ true)
    × (is_utf8 (0xc0 ∷ 0x80 ∷ []) ≡ false)
    × (is_utf8 (0xed ∷ 0xa0 ∷ 0x80 ∷ []) ≡ false)
unfolding is_utf8
utf8_samples = (refl, refl, refl)
