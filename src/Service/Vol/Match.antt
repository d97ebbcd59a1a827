-- ===== src/Service/Vol/Match.antt =====
-- service_c/rbvol.c: which volume a path is matched with.
use recyclebin_svc.Base.{
  ℕ, ◌≤◌, ◌<◌, Bool, true, false, Option, none, some, List, [], ◌∷◌, ◌++◌, ◌≡◌, ◌⊎◌, inl, inr, refl,
  ap, ◌∙◌, arith, WideString, ltb, if◌then◌else◌, length, drop, All, Bool-cases, ltb→lt, subst,
  le→leb, length-append, take-append, take_all, drop-append,
}
use recyclebin_svc.Base.Wide.{backslash, colon, lower, wide_eq_refl}
use recyclebin_svc.Service.Vol.{
  Volume, device_matches, best_len, longer, best_volume, skip_separators, dos_form, vol_nt_to_dos,
}

-- Every match is at most this long.
abbrev pub IsLongest : WideString → List Volume → ℕ → Type 0
IsLongest nt vols n = All (λ u. device_matches nt u ≡ true → u.dev_len ≤ n) vols

longer-len :
    (m : Bool) (v : Volume) (best : Option Volume)
    → (best_len best ≤ best_len (longer m v best))
      × (m ≡ true → v.dev_len ≤ best_len (longer m v best))
unfolding longer
longer-len true v best = elim (Bool-cases (ltb (best_len best) v.dev_len)) [
  | inl e ↦ rw e (omega (arith, ltb→lt (best_len best) v.dev_len e), λ h. omega arith)
  | inr e ↦ rw e (omega arith, λ h. ground arith)
]
longer-len false v best = (omega arith, λ h. cc)

-- `best` only grows, and ends at least as long as each match.
best_volume-IsLongest :
    (nt : WideString) (vols : List Volume) (best : Option Volume)
    → (best_len best ≤ best_len (best_volume nt vols best))
      × IsLongest nt vols (best_len (best_volume nt vols best))
unfolding best_volume
best_volume-IsLongest nt [] best = (omega arith, tt)
best_volume-IsLongest nt (v ∷ vols) best =
    let now = longer-len (device_matches nt v) v best in
    let rest = best_volume-IsLongest nt vols (longer (device_matches nt v) v best) in
    (omega (arith, now.0, rest.0), ((λ m. omega (arith, now.1 m, rest.0)), rest.1))

-- The result is the start value or a match from the list.
abbrev pub IsMatch : WideString → List Volume → Volume → Type 0
IsMatch nt [] v = ⊥
IsMatch nt (u ∷ vols) v = ((u ≡ v) × (device_matches nt v ≡ true)) ⊎ IsMatch nt vols v

pick :
    (b : Bool) (v : Volume) (best : Option Volume) (w : Volume)
    → (if b then some v else best) ≡ some w
    → (best ≡ some w) ⊎ (v ≡ w)
pick true v best w h = inr (cc)
pick false v best w h = inl h

longer-from :
    (m : Bool) (v : Volume) (best : Option Volume) (w : Volume)
    → longer m v best ≡ some w
    → (best ≡ some w) ⊎ ((v ≡ w) × (m ≡ true))
unfolding longer
longer-from true v best w h = elim (pick (ltb (best_len best) v.dev_len) v best w h) [
  | inl e ↦ inl e
  | inr e ↦ inr (e, refl)
]
longer-from false v best w h = inl h

best_volume-from :
    (nt : WideString) (vols : List Volume) (best : Option Volume) (v : Volume)
    → best_volume nt vols best ≡ some v
    → (best ≡ some v) ⊎ IsMatch nt vols v
unfolding best_volume
best_volume-from nt [] best v h = inl h
best_volume-from nt (u ∷ vols) best v h =
    elim (best_volume-from nt vols (longer (device_matches nt u) u best) v h) [
      | inl e ↦ elim (longer-from (device_matches nt u) u best v e) [
        | inl f ↦ inl f
        | inr (same, m) ↦ inr (inl (same, subst (λ w. device_matches nt w ≡ true) same m))
      ]
      | inr m ↦ inr (inr m)
    ]

found :
    (nt : WideString) (vols : List Volume) (best : Option Volume) (dos : WideString)
    → best_volume nt vols none ≡ best
    → dos_form nt best ≡ some dos
    → (v : Volume) × IsMatch nt vols v
      × IsLongest nt vols v.dev_len
      × (dos ≡ v.letter ∷ colon ∷ backslash ∷ skip_separators (drop v.dev_len nt))
found nt vols none dos e h = cc
found nt vols (some v) dos e h = (
  v,
  elim (best_volume-from nt vols none v e) [ inl f ↦ absurd (cc) | inr m ↦ m ],
  subst (λ b. IsLongest nt vols (best_len b)) e (best_volume-IsLongest nt vols none).1,
  cc,
)

-- A DOS path that the service makes of an NT path names the drive of a volume of the map whose device
-- is a prefix of the path, no other such device being longer, and goes on with what stands behind the
-- device, less the backslashes there.
pub vol_nt_to_dos-IsLongest :
    (vols : List Volume) (nt dos : WideString)
    → vol_nt_to_dos vols nt ≡ some dos
    → (v : Volume) × IsMatch nt vols v
      × IsLongest nt vols v.dev_len
      × (dos ≡ v.letter ∷ colon ∷ backslash ∷ skip_separators (drop v.dev_len nt))
unfolding vol_nt_to_dos
vol_nt_to_dos-IsLongest vols [] dos h = cc
vol_nt_to_dos-IsLongest vols (c ∷ nt) dos h =
    found (c ∷ nt) vols (best_volume (c ∷ nt) vols none) dos refl h

device_matches-append :
    (v : Volume) (rest : WideString)
    → v.dev_len ≡ length v.device
    → device_matches (v.device ++ rest) v ≡ true
unfolding device_matches
device_matches-append v rest exact =
    rw
      (
        exact,
        le→leb (length v.device) (length (v.device ++ rest))
            (omega (arith, length-append v.device rest)),
        take-append v.device rest,
        take_all (length v.device) v.device (omega arith),
      )
      (wide_eq_refl (lower v.device))

nonempty_path :
    (vols : List Volume) (nt : WideString)
    → 0 < length nt
    → vol_nt_to_dos vols nt ≡ dos_form nt (best_volume nt vols none)
unfolding vol_nt_to_dos
nonempty_path vols [] h = absurd (omega arith)
nonempty_path vols (c ∷ nt) h = refl

longer-first : (v : Volume) → 0 < v.dev_len → longer true v none ≡ some v
unfolding longer
longer-first v h = ground arith

-- With one volume in the map, every path that begins with the text of its device is taken for a path
-- of that volume, whatever the next character is.
vol_nt_to_dos-no_separator :
    (v : Volume) (rest : WideString)
    → 0 < length v.device
    → v.dev_len ≡ length v.device
    → vol_nt_to_dos (v ∷ []) (v.device ++ rest)
      ≡ some (v.letter ∷ colon ∷ backslash ∷ skip_separators rest)
unfolding best_volume
vol_nt_to_dos-no_separator v rest named exact =
    let behind : drop v.dev_len (v.device ++ rest) ≡ rest = rw exact (drop-append v.device rest) in
    nonempty_path (v ∷ []) (v.device ++ rest) (omega (arith, length-append v.device rest))
    ∙ ap (λ m. dos_form (v.device ++ rest) (longer m v none)) (device_matches-append v rest exact)
    ∙ ap (dos_form (v.device ++ rest)) (longer-first v (omega arith))
    ∙ ap (λ r. some (v.letter ∷ colon ∷ backslash ∷ skip_separators r)) behind
