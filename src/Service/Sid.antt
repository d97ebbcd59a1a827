-- ===== src/Service/Sid.antt =====
-- service_c/rbvol.c: SIDs as the service normalises and compares them.
pub mod Session
use recyclebin_svc.Base.{
  ℕ, zero, suc, ◌+◌, ◌-◌, ◌*◌, ◌%◌, Bool, true, false, not, ◌&&◌, ◌||◌, Option, none, some, List,
  [], ◌∷◌, WideString, ltb, leb, ◌==◌, if◌then◌else◌, length, take, drop, min,
}
use recyclebin_svc.Base.Wide.{backslash, wide, at, same_text, starts_with_text}
use recyclebin_svc.Service.Vol.{skip_separators}

-- `_wtoi` on ASCII: spaces, a sign, digits; out of range it gives INT_MAX or INT_MIN.
abbrev pub is_space : ℕ → Bool
is_space c = c == 32 || (leb 9 c && leb c 13)

abbrev pub is_digit : ℕ → Bool
is_digit c = leb b'0' c && leb c b'9'

unfoldable pub skip_spaces : WideString → WideString
skip_spaces [] = []
skip_spaces (c ∷ s) = if is_space c then skip_spaces s else c ∷ s

unfoldable pub read_digits : ℕ → WideString → ℕ
read_digits n [] = n
read_digits n (c ∷ s) = if is_digit c then read_digits (n * 10 + (c - b'0')) s else n

abbrev pub int_max : ℕ
int_max = 2147483647

-- The sign is read off the first character; the result is the DWORD that the int is cast to.
unfoldable pub signed_dword : WideString → ℕ
signed_dword [] = 0
signed_dword (c ∷ s) =
    if c == b'-'
    then (4294967296 - min 2147483648 (read_digits 0 s)) % 4294967296
    else if c == b'+'
    then min int_max (read_digits 0 s)
    else min int_max (read_digits 0 (c ∷ s))

unfoldable pub wtoi : WideString → ℕ
wtoi s = signed_dword (skip_spaces s)

abbrev pub session_prefix : WideString
session_prefix = wide "S-SESSION-"

-- `session_sid` is `SidFromSession`: the SID text of the user logged on to a session, none if Windows
-- does not give one.
-- `num` is the text behind the prefix of the placeholder `p`.
unfoldable pub resolve_session :
    (ℕ → Option WideString) → WideString → WideString → Option WideString
resolve_session session_sid p num =
    let sess = wtoi (if at num 0 == backslash then drop 1 num else num) in
    elim (session_sid sess) [ none ↦ some p | some sid ↦ some sid ]

abbrev pub normalize_stripped : (ℕ → Option WideString) → WideString → Option WideString
normalize_stripped session_sid [] = none
normalize_stripped session_sid (c ∷ p) =
    if starts_with_text session_prefix (c ∷ p)
    then resolve_session session_sid (c ∷ p) (drop 10 (c ∷ p))
    else some (c ∷ p)

unfoldable pub sid_normalize : (ℕ → Option WideString) → WideString → Option WideString
sid_normalize session_sid raw = normalize_stripped session_sid (skip_separators raw)

-- The second SID is converted into a buffer of 256 WCHARs.
unfoldable pub sid_equals : WideString → WideString → Bool
sid_equals wide_sid sid =
    if leb 256 (length sid) then false else same_text (skip_separators wide_sid) sid
