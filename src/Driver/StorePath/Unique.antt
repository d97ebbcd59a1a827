-- ===== src/Driver/StorePath/Unique.antt =====
-- driver/rbminiflt.c: the shape of a staging path, and that two deletes never get the same one.
use mathlib.Core.List.{append_assoc}
use recyclebin_svc.Base.{
  ℕ, ◌+◌, ◌≤◌, ◌<◌, ◌^◌, Bool, true, false, not, ◌||◌, Option, none, some, List, [], ◌∷◌, ◌++◌, ◌≡◌,
  ◌≢◌, refl, sym, ap, ◌∙◌, subst, arith, length-append, map, if◌then◌else◌, WideString, leb, ◌==◌,
  length, take, drop, All, drop-append, inc64,
}
use recyclebin_svc.Base.Wide.{wide}
use recyclebin_svc.Base.Decimal.{number_digits, number_digits-injective, number_digits-below}
use recyclebin_svc.Driver.State.{
  Status, success, invalid_parameter, insufficient_resources, rbf_max_path,
}
use recyclebin_svc.Driver.Kernel.{append_to, and_append}
use recyclebin_svc.Driver.StorePath.{
  decimal, third_slash, base_start, seq_part, append_status, build_store_path, store_path_text,
}

-- The result of a chain of appends, if there is one, is this text, and it fits in the buffer.
OnlyIs : Option WideString → WideString → Type 0
OnlyIs o x = (p : WideString) → o ≡ some p → (p ≡ x) × (length p ≤ rbf_max_path)

append_to-OnlyIs :
    (dst src p : WideString)
    → append_to rbf_max_path dst src ≡ some p
    → (p ≡ dst ++ src) × (length p ≤ rbf_max_path)
unfolding append_to
append_to-OnlyIs dst src p h = ground (arith, length-append dst src)

grow :
    (o : Option WideString) (x src : WideString) → OnlyIs o x → OnlyIs (and_append o src) (x ++ src)
unfolding OnlyIs
grow none x src only p h = cc
grow (some d) x src only p h =
    let t = append_to-OnlyIs d src p h in (t.0 ∙ ap (λ y. y ++ src) (only d refl).0, t.1)

OnlyIs-empty : OnlyIs (some []) []
unfolding OnlyIs
OnlyIs-empty p h = ground arith

-- The volume part of a path: what stands before its third backslash.
abbrev pub volume_of : WideString → WideString
volume_of src = take (third_slash src 0 0) src

-- A staging path is <volume>\RBStore<sid>\<seq>_<base> for some base name.
abbrev pub IsStagingPath : WideString → WideString → ℕ → WideString → Type 0
IsStagingPath volume sid seq p =
    (base : WideString) × (p ≡ volume ++ wide "\\RBStore" ++ sid ++ seq_part seq ++ base)

append_chain :
    (sid volume seq base p : WideString)
    → store_path_text sid volume seq base ≡ some p
    → (p ≡ volume ++ wide "\\RBStore" ++ sid ++ seq ++ base) × (length p ≤ rbf_max_path)
unfolding OnlyIs
append_chain sid volume seq base p h =
    grow _ _ base
      (grow _ _ seq (grow _ _ sid (grow _ _ (wide "\\RBStore") (grow _ _ volume OnlyIs-empty)))) p h

three_exits : Bool → Bool → Option WideString → ℕ → ℕ → Status × Option WideString × ℕ
three_exits refuse bad o n seq =
    if refuse
    then (insufficient_resources, none, n)
    else if bad
    then (invalid_parameter, none, n)
    else ((append_status o).0, (append_status o).1, seq)

-- What a successful result says of the three exits.
last_exit :
    (refuse bad : Bool) (o : Option WideString) (n seq n' : ℕ) (p : WideString)
    → three_exits refuse bad o n seq ≡ (success, some p, n')
    → (o ≡ some p) × (n' ≡ seq)
unfolding three_exits
last_exit true bad o n seq n' p h = cc
last_exit false true o n seq n' p h = cc
last_exit false false none n seq n' p h = cc
last_exit false false (some q) n seq n' p h = (cc, cc)

built :
    (sid src : WideString) (n n' : ℕ) (pool_ok : Bool) (p : WideString)
    → build_store_path sid src n pool_ok ≡ (success, some p, n')
    → (base : WideString) × (store_path_text sid (volume_of src) (seq_part (inc64 n)) base ≡ some p)
      × (n' ≡ inc64 n)
unfolding build_store_path three_exits
built sid src n n' pool_ok p h =
    let vol = third_slash src 0 0 in
    let behind = base_start (drop vol src) vol vol in
    let base = drop (if leb (length src) behind then vol else behind) src in
    let exit =
      last_exit (not pool_ok) (vol == 0 || leb (length src) vol)
        (store_path_text sid (take vol src) (seq_part (inc64 n)) base) n (inc64 n) n' p h in
    (base, exit.0, exit.1)

-- A staging path that was built stands on the volume of the file, under the SID, and starts with the
-- next sequence number; it fits in RBF_MAX_PATH WCHARs, and the counter has advanced.
build_store_path-IsStagingPath :
    (sid src : WideString) (n n' : ℕ) (pool_ok : Bool) (p : WideString)
    → build_store_path sid src n pool_ok ≡ (success, some p, n')
    → IsStagingPath (volume_of src) sid (inc64 n) p × (length p ≤ rbf_max_path) × (n' ≡ inc64 n)
build_store_path-IsStagingPath sid src n n' pool_ok p h =
    let done = built sid src n n' pool_ok p h in
    let text = append_chain sid _ _ _ p done.1 in ((done.0, text.0), text.1, done.2)

All-map : (ds : List ℕ) → All (λ d. d < 10) ds → All (λ c. c ≢ b'_') (map (λ d. b'0' + d) ds)
All-map [] h = tt
All-map (d ∷ ds) h = (λ e. absurd (omega arith), All-map ds h.1)

shift-injective : (a b : List ℕ) → map (λ d. b'0' + d) a ≡ map (λ d. b'0' + d) b → a ≡ b
shift-injective [] [] e = refl
shift-injective [] (y ∷ b) e = cc
shift-injective (x ∷ a) [] e = cc
shift-injective (x ∷ a) (y ∷ b) e =
    let h : b'0' + x ≡ b'0' + y = cc in
    let t : map (λ d. b'0' + d) a ≡ map (λ d. b'0' + d) b = cc in
    let xy : x ≡ y = omega arith in let ab : a ≡ b = shift-injective a b t in cc

decimal_All : (n : ℕ) → All (λ c. c ≢ b'_') (decimal n)
unfolding decimal
decimal_All n = All-map (number_digits 10 20 n) (number_digits-below 20 n)

decimal-injective : (m n : ℕ) → m < 2 ^ 64 → n < 2 ^ 64 → decimal m ≡ decimal n → m ≡ n
unfolding decimal
decimal-injective m n hm hn e =
    number_digits-injective 20 m n (omega arith) (omega arith)
      (shift-injective (number_digits 10 20 m) (number_digits 10 20 n) e)

-- Two texts without the mark, up to a first mark behind each.
split_at :
    (c : ℕ) (a b x y : WideString)
    → All (λ d. d ≢ c) a
    → All (λ d. d ≢ c) b
    → a ++ c ∷ x ≡ b ++ c ∷ y
    → a ≡ b
split_at c [] [] x y ha hb e = refl
split_at c [] (d ∷ b) x y ha hb e = absurd (hb.0 (cc))
split_at c (d ∷ a) [] x y ha hb e = absurd (ha.0 (cc))
split_at c (d ∷ a) (f ∷ b) x y ha hb e =
    let h : d ≡ f = cc in
    let t : a ++ c ∷ x ≡ b ++ c ∷ y = cc in let ab : a ≡ b = split_at c a b x y ha.1 hb.1 t in cc

cancel_left : (p x y : WideString) → p ++ x ≡ p ++ y → x ≡ y
cancel_left p x y e = sym (drop-append p x) ∙ ap (drop (length p)) e ∙ drop-append p y

-- Behind one volume and one SID, the text of a staging path gives its sequence number back.
IsStagingPath-injective :
    (volume sid : WideString) (m n : ℕ) (p : WideString)
    → m < 2 ^ 64
    → n < 2 ^ 64
    → IsStagingPath volume sid m p
    → IsStagingPath volume sid n p
    → m ≡ n
unfolding seq_part
IsStagingPath-injective volume sid m n p hm hn (x, ex) (y, ey) =
    let front = volume ++ wide "\\RBStore" ++ sid in
    let e : front ++ (seq_part m ++ x) ≡ front ++ (seq_part n ++ y) =
      sym (append_assoc front (seq_part m) x) ∙ sym ex ∙ ey ∙ append_assoc front (seq_part n) y in
    let t : decimal m ++ b'_' ∷ x ≡ decimal n ++ b'_' ∷ y =
      sym (append_assoc (decimal m) (b'_' ∷ []) x)
      ∙ ap (drop 1) (cancel_left front (seq_part m ++ x) (seq_part n ++ y) e)
      ∙ append_assoc (decimal n) (b'_' ∷ []) y in
    decimal-injective m n hm hn
      (split_at b'_' (decimal m) (decimal n) x y (decimal_All m) (decimal_All n) t)

inc64-injective : (m n : ℕ) → m < 2 ^ 64 → n < 2 ^ 64 → inc64 m ≡ inc64 n → m ≡ n
inc64-injective m n hm hn e = omega arith

-- Two deletes that stand on the same volume and come from the same SID, and that are built from
-- different values of the 64-bit sequence counter, get different staging paths.
pub build_store_path-distinct :
    (sid a b : WideString) (m n m' n' : ℕ) (p q : WideString)
    → volume_of a ≡ volume_of b
    → m < 2 ^ 64
    → n < 2 ^ 64
    → m ≢ n
    → build_store_path sid a m true ≡ (success, some p, m')
    → build_store_path sid b n true ≡ (success, some q, n')
    → p ≢ q
build_store_path-distinct sid a b m n m' n' p q same hm hn differ ea eb e =
    let sa = (build_store_path-IsStagingPath sid a m m' true p ea).0 in
    let sb = (build_store_path-IsStagingPath sid b n n' true q eb).0 in
    let sa' = subst (λ v. IsStagingPath v sid (inc64 m) p) same sa in
    let sb' = subst (λ r. IsStagingPath (volume_of b) sid (inc64 n) r) (sym e) sb in
    differ (
      inc64-injective m n hm hn (
        IsStagingPath-injective (volume_of b) sid (inc64 m) (inc64 n) p (omega arith) (omega arith)
          sa' sb'))
