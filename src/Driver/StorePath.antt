-- ===== src/Driver/StorePath.antt =====
-- driver/rbminiflt.c: the SID string of a requestor and the staging target path.
pub mod Unique
use recyclebin_svc.Base.{
  ℕ, zero, suc, ◌+◌, ◌*◌, Bool, true, false, not, ◌&&◌, ◌||◌, ◌≡◌, refl, Option, none, some, List,
  [], ◌∷◌, ◌++◌, map, WideString, ltb, leb, ◌==◌, if◌then◌else◌, length, take, drop, inc64,
}
use recyclebin_svc.Base.Wide.{backslash, wide}
use recyclebin_svc.Base.Decimal.{number_digits}
use recyclebin_svc.Driver.State.{
  Status, success, invalid_parameter, insufficient_resources, buffer_too_small, rbf_max_path,
  rbf_max_name,
}
use recyclebin_svc.Driver.Kernel.{append_to, and_append}

-- (WCHAR)(L'0' + n % 10), for the digits of a ULONG64: at most 20
unfoldable pub decimal : ℕ → WideString
unfolding number_digits
decimal n = map (λ d. b'0' + d) (number_digits 10 20 n)

-- The SID text of the requestor's token (none if the token or its SID cannot be read), and whether
-- the two allocations of `RbfGetRequestorSid` succeed.
pub record SidEnv : Type 0 where
  pub token_sid : Option WideString
  pub real_pool : Bool
  pub fallback_pool : Bool

-- L"\S-SESSION-<id>"
fallback_sid : SidEnv → ℕ → Status × Option WideString
unfolding decimal
fallback_sid env session =
    if env.fallback_pool
    then (success, some (wide "\\S-SESSION-" ++ decimal session))
    else (insufficient_resources, none)

requestor_sid : SidEnv → Option WideString → ℕ → Status × Option WideString
unfolding fallback_sid
requestor_sid env none session = fallback_sid env session
requestor_sid env (some sid) session =
    if ltb 0 (length sid) && ltb (2 * length sid + 2) (rbf_max_name * 2) && env.real_pool
    then (success, some (backslash ∷ sid))
    else fallback_sid env session

unfoldable pub get_requestor_sid : SidEnv → ℕ → Status × Option WideString
unfolding requestor_sid
get_requestor_sid env session = requestor_sid env env.token_sid session

-- The index of the third backslash, or the length.
unfoldable pub third_slash : WideString → ℕ → ℕ → ℕ
third_slash [] slashes i = i
third_slash (c ∷ s) slashes i =
    let seen = if c == backslash then suc slashes else slashes in
    if seen == 3 then i else third_slash s seen (suc i)

-- The index behind the last backslash at or after index `i`, or `start`.
unfoldable pub base_start : WideString → ℕ → ℕ → ℕ
base_start [] i start = start
base_start (c ∷ s) i start = base_start s (suc i) (if c == backslash then suc i else start)

-- L"\<seq>_"
unfoldable pub seq_part : ℕ → WideString
seq_part seq = backslash ∷ decimal seq ++ b'_' ∷ []

abbrev pub append_status : Option WideString → Status × Option WideString
append_status none = (buffer_too_small, none)
append_status (some path) = (success, some path)

-- The five appends to the empty string.
abbrev pub store_path_text : WideString → WideString → WideString → WideString → Option WideString
store_path_text sid volume seq base =
    let store = and_append (and_append (some []) volume) (wide "\\RBStore") in
    and_append (and_append (and_append store sid) seq) base

-- `RbfBuildStorePath` on the SID string, the source path, the sequence counter and whether the pool
-- gives the buffer. The third result is the counter, which advances once the path has a volume.
unfoldable pub build_store_path :
    WideString → WideString → ℕ → Bool → Status × Option WideString × ℕ
unfolding third_slash base_start append_to
build_store_path sid src stage_seq pool_ok =
    let vol = third_slash src 0 0 in
    if not pool_ok
    then (insufficient_resources, none, stage_seq)
    else if vol == 0 || leb (length src) vol
    then (invalid_parameter, none, stage_seq)
    else let behind = base_start (drop vol src) vol vol in
      let start = if leb (length src) behind then vol else behind in
      let seq = inc64 stage_seq in
      let r = append_status (store_path_text sid (take vol src) (seq_part seq) (drop start src)) in
      (r.0, r.1, seq)

abbrev example_src : WideString
example_src = wide "\\Device\\HarddiskVolume2\\Share\\sub\\a.txt"

-- The example in the source's comment, with its sequence number printed as the code prints it.
example_target :
    build_store_path (wide "\\S-1-5-21") example_src 0 true
    ≡ (success, some (wide "\\Device\\HarddiskVolume2\\RBStore\\S-1-5-21\\1_a.txt"), 1)
unfolding build_store_path seq_part decimal
example_target = refl
