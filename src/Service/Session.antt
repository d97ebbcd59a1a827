-- ===== src/Service/Session.antt =====
-- service_c/rbsession.c: the snapshot of the SMB sessions, and the client that it gives for a SID.
pub mod First
use recyclebin_svc.Base.{
  ℕ, Bool, true, false, not, ◌&&◌, ◌||◌, Option, none, some, List, [], ◌∷◌, ◌++◌, WideString, ◌==◌,
  if◌then◌else◌, length, take, drop, any,
}
use recyclebin_svc.Base.Wide.{backslash, at, wide_eq, same_text}
use recyclebin_svc.Service.Sid.{session_prefix}

-- RB_SESSION
pub record Session : Type 0 where
  pub user : WideString
  pub client : WideString

-- g_SessReady and g_Sessions
pub record SessionTable : Type 0 where
  pub ready : Bool
  pub sessions : List Session

-- What NetSessionEnum answers: a failure, no buffer, or rows of a user name and a client name, of
-- which either may be missing.
pub data SessionEnum : Type 0 where
  enum_failed no_buffer : SessionEnum
  enum_rows : List (Option WideString × Option WideString) → SessionEnum

-- `CopyClientName` into 256 WCHARs
abbrev pub copy_client_name : WideString → WideString
copy_client_name src =
    take 255 (if at src 0 == backslash && at src 1 == backslash then drop 2 src else src)

abbrev pub is_user : WideString → Session → Bool
is_user user s = same_text s.user user

-- One round of the loop of `SessionRefresh`. Memory is taken to suffice.
unfoldable pub add_session : Option WideString × Option WideString → List Session → List Session
add_session (some user, some cname) fresh =
    if any (is_user user) fresh
    then fresh
    else fresh ++ record { user = take 255 user; client = copy_client_name cname } ∷ []
add_session _ fresh = fresh

unfoldable pub add_sessions :
    List (Option WideString × Option WideString) → List Session → List Session
add_sessions [] fresh = fresh
add_sessions (row ∷ rows) fresh = add_sessions rows (add_session row fresh)

unfoldable pub session_refresh : SessionEnum → SessionTable → SessionTable
session_refresh enum_failed t = if t.ready then record t { sessions = [] } else t
session_refresh no_buffer t = t
session_refresh (enum_rows rows) t =
    if t.ready then record t { sessions = add_sessions rows [] } else t

unfoldable pub find_session : WideString → List Session → Option WideString
find_session user [] = none
find_session user (s ∷ sessions) =
    let rest = find_session user sessions in if is_user user s then some s.client else rest

unfoldable pub session_lookup_by_user : WideString → SessionTable → Option WideString
session_lookup_by_user user t =
    if not t.ready || length user == 0 then none else find_session user t.sessions

abbrev pub lookup_account : SessionTable → Option WideString → Option WideString
lookup_account t none = none
lookup_account t (some user) = session_lookup_by_user user t

-- `account_name` is what Windows gives for the text of a SID, a name that is not empty.
unfoldable pub session_lookup_client_by_sid :
    (WideString → Option WideString) → WideString → SessionTable → Option WideString
session_lookup_client_by_sid account_name sid t =
    if not t.ready || length sid == 0
    then none
    else if wide_eq (take 10 sid) session_prefix
    then none
    else lookup_account t (account_name sid)
