-- ===== src/Service/Session/First.antt =====
-- service_c/rbsession.c: what a look-up finds after a refresh.
use recyclebin_svc.Base.{
  ℕ, ◌≤◌, ◌<◌, true, false, Option, none, some, List, [], ◌∷◌, ◌++◌, ◌≡◌, inl, inr, refl, sym, ap,
  ◌∙◌, subst, arith, WideString, ◌==◌, if◌then◌else◌, length, take, any, All, take_all, Bool-cases,
  if-cases,
}
use recyclebin_svc.Base.Wide.{lower, wide_eq, same_text, wide_eq→eq, wide_eq_refl}
use recyclebin_svc.Service.Session.{
  Session, SessionTable, enum_failed, enum_rows, copy_client_name, is_user, add_session,
  add_sessions, session_refresh, find_session, session_lookup_by_user,
}

-- The client of the first row of this user that has both names.
unfoldable pub first_client :
    WideString → List (Option WideString × Option WideString) → Option WideString
first_client user [] = none
first_client user ((some name, some cname) ∷ rows) =
    let rest = first_client user rows in
    if same_text name user then some (copy_client_name cname) else rest
first_client user ((some name, none) ∷ rows) = first_client user rows
first_client user ((none, _) ∷ rows) = first_client user rows

abbrev pub or_else : Option WideString → Option WideString → Option WideString
or_else none b = b
or_else (some a) b = some a

-- Account names are at most 255 characters long.
abbrev pub Fits : Option WideString × Option WideString → Type 0
Fits (some name, _) = length name ≤ 255
Fits (none, _) = Unit

same_text_trans :
    (a b c : WideString) → same_text a b ≡ true → same_text b c ≡ true → same_text a c ≡ true
same_text_trans a b c h k =
    subst (λ l. wide_eq l (lower c) ≡ true) (sym (wide_eq→eq (lower a) (lower b) h)) k

same_text_sym : (a b : WideString) → same_text a b ≡ true → same_text b a ≡ true
same_text_sym a b h =
    subst (λ l. wide_eq (lower b) l ≡ true) (sym (wide_eq→eq (lower a) (lower b) h))
      (wide_eq_refl (lower b))

-- A user that the table has under another spelling is found in it.
find_session-has :
    (user name : WideString) (fresh : List Session)
    → any (is_user name) fresh ≡ true
    → same_text name user ≡ true
    → (c : WideString) × (find_session user fresh ≡ some c)
unfolding find_session
find_session-has user name [] h same = cc
find_session-has user name (s ∷ fresh) h same = elim (Bool-cases (same_text s.user user)) [
  | inl e ↦ (s.client, rw e refl)
  | inr e ↦ elim (Bool-cases (same_text s.user name)) [
    | inl f ↦ absurd (cc (e, same_text_trans s.user name user f same))
    | inr f ↦ let rest = find_session-has user name fresh (rw f at h) same in (rest.0, rw e rest.1)
  ]
]

find_session-append :
    (user : WideString) (fresh : List Session) (s : Session)
    → find_session user (fresh ++ s ∷ [])
      ≡ or_else (find_session user fresh) (if same_text s.user user then some s.client else none)
unfolding find_session
find_session-append user [] s = refl
find_session-append user (f ∷ fresh) s = ground (arith, find_session-append user fresh s)

or_else-none : (o : Option WideString) → or_else o none ≡ o
or_else-none none = refl
or_else-none (some a) = refl

or_else_assoc : (a b c : Option WideString) → or_else (or_else a b) c ≡ or_else a (or_else b c)
or_else_assoc none b c = refl
or_else_assoc (some a) b c = refl

-- What one row gives.
abbrev row_client : WideString → Option WideString × Option WideString → Option WideString
row_client user (some name, some cname) =
    if same_text name user then some (copy_client_name cname) else none
row_client user (some name, none) = none
row_client user (none, _) = none

first_client-row :
    (user : WideString) (row : Option WideString × Option WideString)
    (rows : List (Option WideString × Option WideString))
    → first_client user (row ∷ rows) ≡ or_else (row_client user row) (first_client user rows)
unfolding first_client
first_client-row user (some name, some cname) rows = elim (Bool-cases (same_text name user)) [
  | inl e ↦ rw e refl
  | inr e ↦ rw e refl
]
first_client-row user (some name, none) rows = refl
first_client-row user (none, o) rows = refl

kept_duplicate :
    (user name cname : WideString) (fresh : List Session)
    → any (is_user name) fresh ≡ true
    → find_session user fresh
      ≡ or_else (find_session user fresh) (row_client user (some name, some cname))
kept_duplicate user name cname fresh h = elim (Bool-cases (same_text name user)) [
  | inl e ↦ let found = find_session-has user name fresh h e in rw found.1 refl
  | inr e ↦ rw e (sym (or_else-none (find_session user fresh)))
]

add_session-find :
    (user : WideString) (row : Option WideString × Option WideString) (fresh : List Session)
    → Fits row
    → find_session user (add_session row fresh)
      ≡ or_else (find_session user fresh) (row_client user row)
unfolding add_session
add_session-find user (some name, some cname) fresh fits =
    let s : Session = record { user = take 255 name; client = copy_client_name cname } in
    if-cases
      (λ l.
        find_session user l
        ≡ or_else (find_session user fresh) (row_client user (some name, some cname)))
      (any (is_user name) fresh) fresh (fresh ++ s ∷ [])
      (λ dup. kept_duplicate user name cname fresh dup)
      (λ new.
        find_session-append user fresh s
        ∙ ap (λ n. or_else (find_session user fresh) (row_client user (some n, some cname)))
            (take_all 255 name fits))
add_session-find user (some name, none) fresh fits = sym (or_else-none (find_session user fresh))
add_session-find user (none, some o) fresh fits = sym (or_else-none (find_session user fresh))
add_session-find user (none, none) fresh fits = sym (or_else-none (find_session user fresh))

add_sessions-find :
    (user : WideString) (rows : List (Option WideString × Option WideString)) (fresh : List Session)
    → All Fits rows
    → find_session user (add_sessions rows fresh)
      ≡ or_else (find_session user fresh) (first_client user rows)
unfolding add_sessions first_client
add_sessions-find user [] fresh fits = sym (or_else-none (find_session user fresh))
add_sessions-find user (row ∷ rows) fresh fits =
    add_sessions-find user rows (add_session row fresh) fits.1
    ∙ ap (λ o. or_else o (first_client user rows)) (add_session-find user row fresh fits.0)
    ∙ or_else_assoc (find_session user fresh) (row_client user row) (first_client user rows)
    ∙ ap (or_else (find_session user fresh)) (sym (first_client-row user row rows))

not_empty : (n : ℕ) → 0 < n → (n == 0) ≡ false
not_empty n h = ground arith

-- What a look-up by account name finds after a refresh: the client of the first row that Windows
-- gave for that account, in any case of letters, whatever rows came twice or had a name missing, and
-- nothing after a refresh that failed. Account names have at most 255 characters.
session_lookup-refresh :
    (user : WideString) (rows : List (Option WideString × Option WideString)) (t : SessionTable)
    → t.ready ≡ true
    → 0 < length user
    → All Fits rows
    → (session_lookup_by_user user (session_refresh (enum_rows rows) t) ≡ first_client user rows)
      × (session_lookup_by_user user (session_refresh enum_failed t) ≡ none)
unfolding session_lookup_by_user session_refresh find_session
session_lookup-refresh user rows t ready some_user fits =
    let found = add_sessions-find user rows [] fits in
    let named : (length user == 0) ≡ false = not_empty (length user) some_user in
    (rw (ready, named) found, rw (ready, named) refl)
