-- ===== src/Service/Dest.antt =====
-- service_c/rbrestore.c: where a restored file may go (RB-06), and the directories above it (RB-18).
pub mod Allowed
pub mod Chain
use recyclebin_svc.Base.{
  ℕ, zero, suc, ◌+◌, ◌-◌, Bool, true, false, not, ◌&&◌, ◌||◌, Option, none, some, List, [], ◌∷◌,
  ◌++◌, WideString, ltb, leb, ◌==◌, if◌then◌else◌, length, take, drop, any,
}
use recyclebin_svc.Base.Wide.{backslash, colon, at, starts_with_text}

abbrev pub dot : ℕ
dot = 46

-- p[0] == L'.' && p[1] == L'.' && (p[2] == L'\\' || p[2] == L'\0') at some position
unfoldable pub has_dot_dot : WideString → Bool
has_dot_dot [] = false
has_dot_dot (c ∷ s) =
    c == dot && at s 0 == dot && (at s 1 == backslash || at s 1 == 0) || has_dot_dot s

-- One round over the configured prefixes; a NULL prefix is an empty one.
unfoldable pub prefix_allows : WideString → WideString → Bool
prefix_allows dst [] = false
prefix_allows dst (c ∷ p) =
    starts_with_text (c ∷ p) dst
    && (at dst (length (c ∷ p)) == 0 || at dst (length (c ∷ p)) == backslash)

-- `DestIsAllowed` on the configured DOS prefixes. The message buffer is left out.
unfoldable pub dest_is_allowed : List WideString → WideString → Bool
dest_is_allowed protected dst =
    if at dst 0 == 0
    then false
    else if at dst 0 == backslash || not (at dst 1 == colon)
    then false
    else if has_dot_dot dst
    then false
    else if length protected == 0
    then false
    else any (prefix_allows dst) protected

-- while (len > 3 && buf[len - 1] == L'\\') on what stands behind "D:\"
abbrev pub before_trimmed : ℕ → WideString → WideString
before_trimmed c [] = if c == backslash then [] else c ∷ []
before_trimmed c (d ∷ t) = c ∷ d ∷ t

unfoldable pub trim_separators : WideString → WideString
trim_separators [] = []
trim_separators (c ∷ s) = before_trimmed c (trim_separators s)

-- The loop over the separators: `done` is the text before `p`. `create` answers for a path whether
-- CreateDirectoryW succeeded or found it there. With the result come the paths that were tried.
unfoldable pub chain_from : (WideString → Bool) → WideString → WideString → Bool × List WideString
chain_from create done [] = (create done, done ∷ [])
chain_from create done (c ∷ s) =
    let rest = chain_from create (done ++ c ∷ []) s in
    if not (c == backslash)
    then rest
    else if not (create done)
    then (false, done ∷ [])
    else (rest.0, done ∷ rest.1)

abbrev pub rbsvc_max_recon_path : ℕ
rbsvc_max_recon_path = 1024

unfoldable pub ensure_directory_chain : (WideString → Bool) → WideString → Bool × List WideString
ensure_directory_chain create dir =
    if at dir 0 == 0
    then (false, [])
    else if at dir 0 == backslash || not (at dir 1 == colon)
    then (false, [])
    else if ltb (length dir) 3 || leb rbsvc_max_recon_path (length dir)
    then (false, [])
    else if length dir == 3
    then (true, [])
    else chain_from create (take 3 dir) (trim_separators (drop 3 dir))
