-- ===== src/Output.antt =====
-- crates/zeb-runtime/src/output.rs: the bytes of one command, bounded until the host takes them.
use zebulon_lang.Prelude.{
  ℕ, ◌+◌, List, [], ◌++◌, none, some, ltb, leb, length, get_elem?, if◌then◌else◌, ok, err,
}
use zebulon_lang.Prelude.Exec.{Method}
use zebulon_lang.Prelude.Bytes.{usize_mod}
use zebulon_lang.Errors.{Error, resource_limit}

pub record Output : Type 0 where
  pub bytes : List ℕ
  pub limit : ℕ

-- `Output::default()`
abbrev pub default : Output
default = record { bytes = []; limit = 0 }

pub reset : Output → ℕ → Output
reset o limit = record { bytes = []; limit = limit }

-- `checked_add` of two `usize` lengths, then the limit.
pub append : List ℕ → Method {0, 0, 0} Output Error Unit
append text o =
    if leb usize_mod (length o.bytes + length text)
    then (err resource_limit, o)
    else if ltb o.limit (length o.bytes + length text)
    then (err resource_limit, o)
    else (ok tt, record o { bytes = o.bytes ++ text })

pub take : Output → List ℕ × Output
take o = (o.bytes, record o { bytes = [] })

-- `usize::try_from` of a `u64` never fails on the 64-bit targets; past the end is 256.
pub byte : Output → ℕ → ℕ
byte o offset = elim (get_elem? o.bytes offset) [ none ↦ 256 | some b ↦ b ]
