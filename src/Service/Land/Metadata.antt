-- ===== src/Service/Land/Metadata.antt =====
-- service_c/rbstore.c and rbrestore.c: the $I file next to a landed $R file.
use recyclebin_svc.Base.{
  ℕ, zero, suc, ◌+◌, ◌<◌, none, some, List, [], ◌∷◌, ◌++◌, ◌≡◌, ◌≢◌, inr, refl, ap, ◌∙◌, arith,
  WideString, length, set, get_or, All-append, take_all,
}
use recyclebin_svc.Base.Wide.{backslash, last_index}
use recyclebin_svc.Service.Restore.{i_counterpart, swap_marker}
use recyclebin_svc.Service.Land.{base_36, bin_path}
use recyclebin_svc.Service.Land.Paths.{Lacks, base_36-Lacks}

last_index-none : (c : ℕ) (s : WideString) → Lacks c s → last_index c s ≡ none
unfolding last_index
last_index-none c [] h = refl
last_index-none c (x ∷ s) h = ground (arith, last_index-none c s h.1, h.0)

last_index-append :
    (c : ℕ) (s t : WideString) → Lacks c t → last_index c (s ++ c ∷ t) ≡ some (length s)
unfolding last_index
last_index-append c [] t h = ground (arith, last_index-none c t h)
last_index-append c (x ∷ s) t h = ground (arith, last_index-append c s t h)

get_or-append : (s t : List ℕ) (i k d : ℕ) → i ≡ length s + k → get_or (s ++ t) i d ≡ get_or t k d
get_or-append [] t i k d e = ap (λ n. get_or t n d) (omega (arith, e))
get_or-append (x ∷ s) t zero k d e = absurd (omega (arith, e))
get_or-append (x ∷ s) t (suc i) k d e = get_or-append s t i k d (omega (arith, e))

set-append : (s t : List ℕ) (i k v : ℕ) → i ≡ length s + k → set (s ++ t) i v ≡ s ++ set t k v
set-append [] t i k v e = ap (λ n. set t n v) (omega (arith, e))
set-append (x ∷ s) t zero k v e = absurd (omega (arith, e))
set-append (x ∷ s) t (suc i) k v e = ap (λ u. x ∷ u) (set-append s t i k v (omega (arith, e)))

swap_marker-bin_path :
    (dir token ext : WideString)
    → swap_marker (bin_path b'R' dir token ext) (some (length dir))
      ≡ some (bin_path b'I' dir token ext)
swap_marker-bin_path dir token ext =
    let tail : WideString = backslash ∷ b'$' ∷ b'R' ∷ (token ++ ext) in
    let dollar = get_or-append dir tail (length dir + 1) 1 0 refl in
    let letter = get_or-append dir tail (length dir + 2) 2 0 refl in
    let swapped = set-append dir tail (length dir + 2) 2 b'I' refl in
    rw (dollar, letter, swapped) refl

-- The purge, the restore and the rebuild find the $I file of a landed $R file: it is the path that
-- landing wrote to, if the path fits and its extension has no separator.
i_counterpart-bin_path :
    (dir : WideString) (v : ℕ) (ext : WideString)
    → length (bin_path b'R' dir (base_36 v) ext) < 260
    → Lacks backslash ext
    → i_counterpart (bin_path b'R' dir (base_36 v) ext) ≡ some (bin_path b'I' dir (base_36 v) ext)
unfolding i_counterpart
i_counterpart-bin_path dir v ext fits plain =
    let path = bin_path b'R' dir (base_36 v) ext in
    let tail =
      All-append (λ x. x ≢ backslash) (base_36 v) ext
        (base_36-Lacks backslash v (inr (omega arith))) plain in
    ap (λ p. swap_marker p (last_index backslash p)) (take_all 259 path (omega (arith, fits)))
    ∙ ap (swap_marker path) (
        last_index-append backslash dir (b'$' ∷ b'R' ∷ (base_36 v ++ ext))
          ((λ e. omega arith), ((λ e. omega arith), tail)))
    ∙ swap_marker-bin_path dir (base_36 v) ext
