-- ===== src/Prelude/Text.antt =====
-- `text.trim().parse::<i64>()` on the bytes of a text: the code points, the white space that `trim`
-- takes off, and the decimal number.
use Prim.Native.Nat.{ℕ, zero, suc, ◌+◌, ◌-◌, ◌*◌, ◌^◌}
use mathlib.Core.Path.{◌≡◌, refl}
use mathlib.Core.Bool.{Bool, true, false, ◌&&◌, ◌||◌}
use mathlib.Core.List.{List, [], ◌∷◌, reverse}
use mathlib.Core.Option.{Option, none, some}
use zebulon_lang.Prelude.Tests.{ltb, leb, ◌==◌, if◌then◌else◌}
use zebulon_lang.Prelude.Int.{ℤ, pos, negsuc}

-- The code points of valid UTF-8. The first argument is the number of continuation bytes to come,
-- the second what the bytes before them hold.
code_points_from : ℕ → ℕ → List ℕ → List ℕ
code_points_from pending held [] = []
code_points_from (suc (suc n)) held (b ∷ bs) = code_points_from (suc n) (held * 64 + (b - 0x80)) bs
code_points_from (suc zero) held (b ∷ bs) = (held * 64 + (b - 0x80)) ∷ code_points_from 0 0 bs
code_points_from zero held (b ∷ bs) = elim (ltb b 0x80) [
  | true ↦ b ∷ code_points_from 0 0 bs
  | false ↦ elim (ltb b 0xe0) [
    | true ↦ code_points_from 1 (b - 0xc0) bs
    | false ↦ elim (ltb b 0xf0) [
      | true ↦ code_points_from 2 (b - 0xe0) bs
      | false ↦ code_points_from 3 (b - 0xf0) bs
    ]
  ]
]

-- The property White_Space.
is_white_space : ℕ → Bool
is_white_space c =
    leb 0x9 c && leb c 0xd
    || c == 0x20
    || c == 0x85
    || c == 0xa0
    || c == 0x1680
    || leb 0x2000 c && leb c 0x200a
    || c == 0x2028
    || c == 0x2029
    || c == 0x202f
    || c == 0x205f
    || c == 0x3000

trim_start : List ℕ → List ℕ
trim_start [] = []
trim_start (c ∷ cs) = elim (is_white_space c) [ true ↦ trim_start cs | false ↦ c ∷ cs ]

digits_from : ℕ → List ℕ → Option ℕ
digits_from n [] = some n
digits_from n (c ∷ cs) = elim (leb b'0' c && leb c b'9') [
  | true ↦ digits_from (n * 10 + (c - b'0')) cs
  | false ↦ none
]

natural : List ℕ → Option ℕ
natural [] = none
natural cs = digits_from 0 cs

non_negative : Option ℕ → Option ℤ
non_negative none = none
non_negative (some n) = if ltb n (2 ^ 63) then some (pos n) else none

negative : Option ℕ → Option ℤ
negative none = none
negative (some zero) = some (pos 0)
negative (some (suc n)) = if ltb n (2 ^ 63) then some (negsuc n) else none

integer : List ℕ → Option ℤ
integer [] = none
integer (c ∷ cs) =
    if c == b'-'
    then negative (natural cs)
    else if c == b'+'
    then non_negative (natural cs)
    else non_negative (natural (c ∷ cs))

-- `text.trim().parse::<i64>().ok()`
unfoldable pub parse_i64 : List ℕ → Option ℤ
unfolding code_points_from is_white_space trim_start digits_from natural non_negative negative
    integer
parse_i64 bytes = integer (reverse (trim_start (reverse (trim_start (code_points_from 0 0 bytes)))))

parse_i64_samples :
    (parse_i64 (b' ' ∷ b'4' ∷ b'2' ∷ 0xc2 ∷ 0xa0 ∷ []) ≡ some (pos 42))
    × (parse_i64 (b'-' ∷ b'7' ∷ []) ≡ some (negsuc 6))
    × (parse_i64 (b'-' ∷ []) ≡ none)
unfolding parse_i64
parse_i64_samples = (refl, refl, refl)
