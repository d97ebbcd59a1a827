-- ===== src/Driver/Kernel.antt =====
-- What driver/rbminiflt.c uses of the kernel's run-time library and does not implement.
use recyclebin_svc.Base.{
  ℕ, ◌+◌, Bool, Option, none, some, ◌++◌, WideString, leb, length, if◌then◌else◌,
}
use recyclebin_svc.Driver.State.{rbf_max_path}

-- RtlUpcaseUnicodeString maps each code unit by itself; FsRtlIsNameInExpression(pattern, name).
pub record Kernel : Type 0 where
  pub upcase : ℕ → ℕ
  pub name_in_expression : WideString → WideString → Bool

-- RtlAppendUnicodeStringToString on a buffer of `room` WCHARs: refused if it does not fit.
unfoldable pub append_to : ℕ → WideString → WideString → Option WideString
append_to room dst src = if leb (length dst + length src) room then some (dst ++ src) else none

-- One more append to a path buffer of RBF_MAX_PATH WCHARs; a refused one ends the chain.
abbrev pub and_append : Option WideString → WideString → Option WideString
and_append none src = none
and_append (some dst) src = append_to rbf_max_path dst src
