-- ===== src/Service/Vol.antt =====
-- service_c/rbvol.c: the volume map, and paths between their NT and DOS forms.
pub mod Match
use recyclebin_svc.Base.{
  ℕ, zero, suc, ◌+◌, ◌-◌, Bool, true, false, not, ◌&&◌, ◌||◌, Option, none, some, List, [], ◌∷◌,
  ◌++◌, WideString, ltb, leb, ◌==◌, if◌then◌else◌, length, take, drop,
}
use recyclebin_svc.Base.Wide.{backslash, colon, at, lower, wide_eq}

-- VOL_MAP. `Drive` is the letter and a colon.
pub record Volume : Type 0 where
  pub device : WideString
  pub letter : ℕ
  pub dev_len : ℕ

-- What Windows says of a drive letter: whether it is a fixed, removable or RAM disk
-- (GetDriveTypeW), and its device (QueryDosDeviceW; none for a failure or an empty name).
pub record DriveEnv : Type 0 where
  pub is_disk : ℕ → Bool
  pub dos_device : ℕ → Option WideString

-- The table keeps 63 WCHARs of the device, and the length of the whole.
abbrev pub volume_for : ℕ → Option WideString → Option Volume
volume_for c none = none
volume_for c (some dev) = some (record { device = take 63 dev; letter = c; dev_len = length dev })

abbrev pub add_volume : Option Volume → List Volume → List Volume
add_volume none vols = vols
add_volume (some v) vols = v ∷ vols

-- The letters left from `c` on; the table of 32 has room for all 26.
unfoldable pub vol_init_from : DriveEnv → ℕ → ℕ → List Volume
vol_init_from env zero c = []
vol_init_from env (suc left) c =
    let rest = vol_init_from env left (suc c) in
    if not (env.is_disk c) then rest else add_volume (volume_for c (env.dos_device c)) rest

unfoldable pub vol_init : DriveEnv → List Volume
unfolding vol_init_from
vol_init env = vol_init_from env 26 b'A'

-- `_wcsnicmp(a, b, n) == 0`
abbrev pub same_prefix : ℕ → WideString → WideString → Bool
same_prefix n a b = wide_eq (lower (take n a)) (lower (take n b))

-- `dosPath` names this volume's drive.
abbrev pub on_drive : WideString → Volume → Bool
on_drive dos v = same_prefix 2 dos (v.letter ∷ colon ∷ [])

find_drive : List Volume → WideString → Option WideString
find_drive [] dos = none
find_drive (v ∷ vols) dos =
    let rest = find_drive vols dos in
    if not (on_drive dos v) then rest else some (v.device ++ drop 2 dos)

-- Allocations in the service are taken to succeed.
unfoldable pub vol_dos_to_nt : List Volume → WideString → Option WideString
unfolding find_drive
vol_dos_to_nt vols dos =
    if at dos 0 == 0 || not (at dos 1 == colon) then none else find_drive vols dos

-- The volume's device is a prefix of the path.
unfoldable pub device_matches : WideString → Volume → Bool
device_matches nt v = leb v.dev_len (length nt) && same_prefix v.dev_len nt v.device

-- The loop with its `best` so far; no volume stands for length 0.
abbrev pub best_len : Option Volume → ℕ
best_len none = 0
best_len (some v) = v.dev_len

unfoldable pub longer : Bool → Volume → Option Volume → Option Volume
longer matches v best =
    if matches then if ltb (best_len best) v.dev_len then some v else best else best

unfoldable pub best_volume : WideString → List Volume → Option Volume → Option Volume
best_volume nt [] best = best
best_volume nt (v ∷ vols) best = best_volume nt vols (longer (device_matches nt v) v best)

-- while (*p == L'\\') p++;
unfoldable pub skip_separators : WideString → WideString
skip_separators [] = []
skip_separators (c ∷ s) = if c == backslash then skip_separators s else c ∷ s

abbrev pub dos_form : WideString → Option Volume → Option WideString
dos_form nt none = none
dos_form nt (some v) = some (v.letter ∷ colon ∷ backslash ∷ skip_separators (drop v.dev_len nt))

unfoldable pub vol_nt_to_dos : List Volume → WideString → Option WideString
vol_nt_to_dos vols [] = none
vol_nt_to_dos vols (c ∷ nt) = dos_form (c ∷ nt) (best_volume (c ∷ nt) vols none)

-- `VolDriveOf` into a buffer of `cch` WCHARs.
unfoldable pub vol_drive_of : WideString → ℕ → Option WideString
vol_drive_of dos cch =
    if ltb (length dos) 2 || not (at dos 1 == colon)
    then none
    else if ltb cch 4
    then none
    else some (at dos 0 ∷ colon ∷ backslash ∷ [])
