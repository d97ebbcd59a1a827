-- ===== src/Service/Sid/Session.antt =====
-- driver/rbminiflt.c and service_c/rbvol.c: the placeholder for a session, from the driver to its SID.
use recyclebin_svc.Base.{
  ℕ, ◌+◌, ◌-◌, ◌*◌, ◌≤◌, ◌<◌, true, false, Option, none, some, List, [], ◌∷◌, ◌++◌, ◌≡◌, refl, sym,
  ap, ◌∙◌, subst, arith, map, WideString, ◌==◌, length, All, length-append, take_all, length-map,
}
use recyclebin_svc.Base.Wide.{backslash, at, to_lower, wide_eq}
use recyclebin_svc.Base.Decimal.{
  number_digits, value_from, number_digits-value, number_digits-below, length-number_digits,
}
use recyclebin_svc.Driver.State.{success}
use recyclebin_svc.Driver.StorePath.{SidEnv, decimal, get_requestor_sid}
use recyclebin_svc.Service.Vol.{skip_separators}
use recyclebin_svc.Service.Db.{strip_sid}
use recyclebin_svc.Service.Sid.{
  skip_spaces, read_digits, signed_dword, wtoi, resolve_session, sid_normalize, session_prefix,
  int_max,
}

abbrev as_text : List ℕ → WideString
as_text = map (λ d. b'0' + d)

read_digits-as_text :
    (n : ℕ) (ds : List ℕ) → All (λ d. d < 10) ds → read_digits n (as_text ds) ≡ value_from 10 n ds
unfolding read_digits
read_digits-as_text n [] h = refl
read_digits-as_text n (d ∷ ds) h =
    let same : b'0' + d - b'0' ≡ d = omega arith in
    ground (arith, read_digits-as_text (n * 10 + d) ds h.1, h.0, same)

wtoi-as_text :
    (ds : List ℕ)
    → All (λ d. d < 10) ds
    → value_from 10 0 ds ≤ int_max
    → wtoi (as_text ds) ≡ value_from 10 0 ds
unfolding wtoi skip_spaces signed_dword
wtoi-as_text [] h small = refl
wtoi-as_text (d ∷ ds) h small = ground (arith, read_digits-as_text 0 (d ∷ ds) h, h.0, small)

first_not_separator :
    (ds : List ℕ) → All (λ d. d < 10) ds → (at (as_text ds) 0 == backslash) ≡ false
first_not_separator [] h = refl
first_not_separator (d ∷ ds) h = ground (arith, h.0)

wtoi-decimal : (n : ℕ) → n ≤ int_max → wtoi (decimal n) ≡ n
unfolding decimal
wtoi-decimal n small =
    let value = number_digits-value 20 n (omega arith) in
    wtoi-as_text (number_digits 10 20 n) (number_digits-below 20 n)
      (subst (λ v. v ≤ int_max) (sym value) small)
    ∙ value

length-decimal : (n : ℕ) → length (decimal n) ≤ 21
unfolding decimal
length-decimal n =
    omega (arith, length-number_digits 10 20 n, length-map (λ d. b'0' + d) (number_digits 10 20 n))

first_of_decimal : (n : ℕ) → (at (decimal n) 0 == backslash) ≡ false
unfolding decimal
first_of_decimal n = first_not_separator (number_digits 10 20 n) (number_digits-below 20 n)

resolve_session-known :
    (session_sid : ℕ → Option WideString) (p num : WideString) (n : ℕ) (sid : WideString)
    → (at num 0 == backslash) ≡ false
    → wtoi num ≡ n
    → session_sid n ≡ some sid
    → resolve_session session_sid p num ≡ some sid
unfolding resolve_session
resolve_session-known session_sid p num n sid plain number known =
    ground (arith, plain, number, known)

-- The placeholder as the service finds it, without its separator.
sid_normalize-placeholder :
    (session_sid : ℕ → Option WideString) (n : ℕ) (sid : WideString)
    → n ≤ int_max
    → session_sid n ≡ some sid
    → sid_normalize session_sid (session_prefix ++ decimal n) ≡ some sid
unfolding sid_normalize skip_separators wide_eq to_lower
sid_normalize-placeholder session_sid n sid small known =
    resolve_session-known session_sid (session_prefix ++ decimal n) (decimal n) n sid
      (first_of_decimal n) (wtoi-decimal n small) known

sid_normalize-separator :
    (session_sid : ℕ → Option WideString) (s : WideString)
    → sid_normalize session_sid (backslash ∷ s) ≡ sid_normalize session_sid s
unfolding sid_normalize skip_separators
sid_normalize-separator session_sid s = refl

strip_sid-placeholder :
    (n : ℕ) → strip_sid (backslash ∷ session_prefix ++ decimal n) ≡ session_prefix ++ decimal n
strip_sid-placeholder n =
    take_all 255 (session_prefix ++ decimal n)
      (omega (arith, length-decimal n, length-append session_prefix (decimal n)))

-- When the driver cannot read the requestor's token and has memory for the placeholder, then the SID
-- that the service makes of it, from the notification or from the stored row, is the one of the user
-- logged on to the requestor's session, if Windows knows it and the session's number fits an int.
pub sid_normalize-get_requestor_sid :
    (env : SidEnv) (session_sid : ℕ → Option WideString) (session : ℕ) (sid : WideString)
    → env.token_sid ≡ none
    → env.fallback_pool ≡ true
    → session ≤ int_max
    → session_sid session ≡ some sid
    → (text : WideString) × (get_requestor_sid env session ≡ (success, some text))
      × (sid_normalize session_sid text ≡ some sid)
      × (sid_normalize session_sid (strip_sid text) ≡ some sid)
unfolding get_requestor_sid
sid_normalize-get_requestor_sid env session_sid session sid unread pool small known =
    let plain = sid_normalize-placeholder session_sid session sid small known in
    (
      backslash ∷ session_prefix ++ decimal session,
      rw (unread, pool) refl,
      sid_normalize-separator session_sid (session_prefix ++ decimal session) ∙ plain,
      ap (sid_normalize session_sid) (strip_sid-placeholder session) ∙ plain,
    )
