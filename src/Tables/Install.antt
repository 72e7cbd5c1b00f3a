-- ===== src/Tables/Install.antt =====
-- tables.rs, `install`: the tables of a process are installed once, and only the same tables again.
use zebulon_lang.Prelude.{
  ◌⊎◌, inr, inl, Bool-cases, ◌≢◌, ap, ℕ, ◌≡◌, refl, arith, true, Option, none, some, List, [], take,
  if◌then◌else◌, Result, ok, err,
}
use zebulon_lang.Prelude.Exec.{Method}
use zebulon_lang.Tables.{Fault, bad_magic, conflict, Tables, bytes_eq, magic, decode}
use zebulon_lang.Tables.Same.{same, same_self, same-eq}

-- What the process has installed.
abbrev pub Installed : Type 0
Installed = Option Tables

abbrev pub Install : Type 0
Install = Method {0, 0, 0} Installed Fault Unit

-- What a process without tables gets: no grammar and no literals.
abbrev pub fallback : Tables
fallback = record {
  literals = [];
  grammar = record {
    productions = [];
    rules = [];
    badness_property = none;
    first_token_index = none;
    last_token_index = none;
    token_list = none;
  };
}

-- `installed`: asking installs the fallback where there is nothing.
unfoldable pub installed : Installed → Tables × Installed
installed none = (fallback, some fallback)
installed (some tables) = (tables, some tables)

install_decoded : Result Fault Tables → Install
install_decoded (err e) here = (err e, here)
install_decoded (ok tables) none = (ok tt, some tables)
install_decoded (ok tables) (some existing) =
    if same existing tables then (ok tt, some existing) else (err conflict, some existing)

unfoldable pub install : List ℕ → Install
unfolding install_decoded
install bytes here =
    if bytes_eq (take 4 bytes) magic
    then install_decoded (decode bytes) here
    else (err bad_magic, here)

decode-magic :
    (bytes : List ℕ) (t : Tables) → decode bytes ≡ ok t → bytes_eq (take 4 bytes) magic ≡ true
unfolding decode
decode-magic bytes t e = ground arith

-- Bytes that decode are installed in a process that has no tables. From then on bytes that decode to
-- equal tables are accepted, bytes that decode to any other tables are refused as a conflict, and
-- neither changes what is installed.
pub install-install :
    (bytes others : List ℕ) (tables next : Tables)
    → decode bytes ≡ ok tables
    → decode others ≡ ok next
    → (install bytes none ≡ (ok tt, some tables))
      × (((tables ≡ next) × (install others (some tables) ≡ (ok tt, some tables)))
          ⊎ ((tables ≢ next) × (install others (some tables) ≡ (err conflict, some tables))))
unfolding install
install-install bytes others tables next e e' =
    let start = decode-magic bytes tables e in
    let start' = decode-magic others next e' in
    (
      rw (start, e) refl,
      elim (Bool-cases (same tables next)) [
        | inl accepted ↦ inl (same-eq tables next accepted, rw (start', e', accepted) refl)
        | inr refused ↦ inr (
          λ equal. cc (refused, ap (same tables) equal, same_self tables),
          rw (start', e', refused) refl,
        )
      ],
    )
