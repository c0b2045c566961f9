-- ===== src/Status.antt =====
-- include/cellar/cellar.h: the status codes, and `cellar_status_string` of
-- src/loader/cellar_util.c.
use mathlib.Core.Bool.{Bool, true, false}
use mathlib.Core.Path.{◌≡◌, refl}
use Prim.Native.String.{String}

-- `cellar_status_t`, in the order of the enumeration.
pub data Status : Type 0 where
  ok err_invalid_argument err_out_of_memory err_not_implemented : Status
  err_pe_not_pe err_pe_truncated err_pe_bad_magic err_pe_bad_sections : Status
  err_pe_bad_imports err_pe_bad_exports err_pe_bad_relocations : Status
  err_count : Status

pub status_string : Status → String
status_string Status.ok = "ok"
status_string err_invalid_argument = "invalid argument"
status_string err_out_of_memory = "out of memory"
status_string err_not_implemented = "not implemented"
status_string err_pe_not_pe = "not a PE image (bad MZ/PE signature)"
status_string err_pe_truncated = "PE image truncated"
status_string err_pe_bad_magic = "unknown PE optional-header magic"
status_string err_pe_bad_sections = "malformed PE section table"
status_string err_pe_bad_imports = "malformed PE import directory"
status_string err_pe_bad_exports = "malformed PE export directory"
status_string err_pe_bad_relocations = "malformed PE base relocation table"
status_string err_count = "unknown status"

-- `st == CELLAR_OK`.
abbrev pub is_ok : Status → Bool
is_ok Status.ok = true
is_ok _ = false

pub is_ok-true : (st : Status) → is_ok st ≡ true → st ≡ Status.ok
is_ok-true Status.ok h = refl
is_ok-true err_invalid_argument h = absurd (cc)
is_ok-true err_out_of_memory h = absurd (cc)
is_ok-true err_not_implemented h = absurd (cc)
is_ok-true err_pe_not_pe h = absurd (cc)
is_ok-true err_pe_truncated h = absurd (cc)
is_ok-true err_pe_bad_magic h = absurd (cc)
is_ok-true err_pe_bad_sections h = absurd (cc)
is_ok-true err_pe_bad_imports h = absurd (cc)
is_ok-true err_pe_bad_exports h = absurd (cc)
is_ok-true err_pe_bad_relocations h = absurd (cc)
is_ok-true err_count h = absurd (cc)
