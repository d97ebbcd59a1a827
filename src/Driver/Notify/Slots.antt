-- ===== src/Driver/Notify/Slots.antt =====
-- driver/rbminiflt.c: the three slots of a payload, and what is read from each.
use mathlib.Core.Path.{ap₂}
use mathlib.Core.List.{append_assoc, append-nil}
use native.Mathlib.Nat.{zero-add, suc-add}
use recyclebin_svc.Base.{
  ltb, Bool-cases, inl, inr, ℕ, zero, suc, ◌+◌, ◌-◌, ◌*◌, ◌/◌, ◌≤◌, ◌<◌, false, Option, none, some,
  [], ◌∷◌, ◌++◌, ◌≡◌, ◌≢◌, refl, sym, ap, subst, ◌∙◌, arith, WideString, length, take, drop,
  replicate, All, length-append, length-take, take_all, drop-append, min,
}
use recyclebin_svc.Driver.State.{notification_size}
use recyclebin_svc.Driver.Notify.{
  write_at, word_index, copy_bytes, notify_set_str, fresh_note, c_string, fill_note,
}

-- No NUL inside.
abbrev pub HasNoNul : WideString → Type 0
HasNoNul = All (λ c. c ≢ 0)

c_string-terminated : (s r : WideString) → HasNoNul s → c_string (s ++ 0 ∷ r) ≡ s
unfolding c_string
c_string-terminated [] r h = refl
c_string-terminated (x ∷ s) r h = ground (arith, c_string-terminated s r h.1)

-- A slot of `n` WCHARs that holds `ws`, zero behind it.
unfoldable pub pad : ℕ → WideString → WideString
pad zero ws = []
pad (suc n) [] = 0 ∷ pad n []
pad (suc n) (w ∷ ws) = w ∷ pad n ws

length-pad : (n : ℕ) (ws : WideString) → length (pad n ws) ≡ n
unfolding pad
length-pad zero ws = refl
length-pad (suc n) [] = ap suc (length-pad n [])
length-pad (suc n) (w ∷ ws) = ap suc (length-pad n ws)

c_string-pad :
    (n : ℕ) (s r : WideString) → HasNoNul s → length s < n → c_string (pad n (s ++ 0 ∷ []) ++ r) ≡ s
unfolding c_string pad
c_string-pad zero s r h fits = elim fits [ ]
c_string-pad (suc n) [] r h fits = refl
c_string-pad (suc n) (x ∷ s) r h fits = ground (arith, c_string-pad n s r h.1)

write_at-skip :
    (a b ws : WideString) (n : ℕ) → write_at (a ++ b) (length a + n) ws ≡ a ++ write_at b n ws
unfolding write_at
write_at-skip [] b ws n = rw zero-add
write_at-skip (x ∷ a) b [] n = refl
write_at-skip (x ∷ a) b (w ∷ ws) n = rw suc-add (ap (λ t. x ∷ t) (write_at-skip a b (w ∷ ws) n))

write_at-slot :
    (n : ℕ) (b ws : WideString) → length ws ≤ n → write_at (pad n [] ++ b) 0 ws ≡ pad n ws ++ b
unfolding write_at pad
write_at-slot zero b [] h = refl
write_at-slot (suc n) b [] h = refl
write_at-slot zero b (w ∷ ws) h = absurd (omega arith)
write_at-slot (suc n) b (w ∷ ws) h = ap (λ t. w ∷ t) (write_at-slot n b ws (omega arith))

replicate-pad : (n : ℕ) → replicate n 0 ≡ pad n []
unfolding pad
replicate-pad zero = refl
replicate-pad (suc n) = ap (λ t. 0 ∷ t) (replicate-pad n)

pad-add : (m n : ℕ) → pad (m + n) [] ≡ pad m [] ++ pad n []
unfolding pad
pad-add zero n = rw zero-add
pad-add (suc m) n = rw suc-add (ap (λ t. 0 ∷ t) (pad-add m n))

copy_bytes-half : (k : ℕ) (src : WideString) → copy_bytes (2 * k) src / 2 ≡ min k (length src)
copy_bytes-half k src = ground arith

pub take-min : (k : ℕ) (s : WideString) → take (min k (length s)) s ≡ take k s
take-min k s = elim (Bool-cases (ltb k (length s))) [
  | inl e ↦ ap (λ n. take n s) (let h : min k (length s) ≡ k = ground arith in h)
  | inr e ↦
      (let h : min k (length s) ≡ length s = ground arith in ap (λ n. take n s) h)
      ∙ take_all (length s) s (omega arith)
      ∙ sym (take_all k s (ground arith))
]

-- A slot of k + 1 WCHARs at index o takes at most k of the source's, and the NUL.
set_str_payload :
    (payload : WideString) (x y o k : ℕ) (src : WideString)
    → x ≡ notification_size + 2 * o
    → y ≡ 2 * k + 2
    → (notify_set_str payload x y src).0 ≡ write_at payload o (take k src ++ 0 ∷ [])
unfolding notify_set_str
set_str_payload payload x y o k src hx hy =
    let hi : word_index x ≡ o = omega arith in
    let hb : copy_bytes (y - 2) src / 2 ≡ min k (length src) =
      rw (let d : y - 2 ≡ 2 * k = omega arith in d) (copy_bytes-half k src) in
    rw (let t : ltb y 2 ≡ false = ground arith in t)
      (ap₂ (λ i w. write_at payload i (w ++ 0 ∷ [])) hi (ap (λ n. take n src) hb ∙ take-min k src))

write_at-behind :
    (n : ℕ) (p b ws : WideString) (j : ℕ)
    → write_at (pad n p ++ b) (n + j) ws ≡ pad n p ++ write_at b j ws
write_at-behind n p b ws j =
    subst (λ m. write_at (pad n p ++ b) (m + j) ws ≡ pad n p ++ write_at b j ws) (length-pad n p)
      (write_at-skip (pad n p) b ws j)

drop-pad : (n : ℕ) (p b : WideString) → drop n (pad n p ++ b) ≡ b
drop-pad n p b = subst (λ m. drop m (pad n p ++ b) ≡ b) (length-pad n p) (drop-append (pad n p) b)

-- Three slots of m, n and k WCHARs with these contents.
unfoldable pub slots : ℕ → ℕ → ℕ → WideString → WideString → WideString → WideString
slots m n k p s i = pad m p ++ (pad n s ++ pad k i)

slots-zero : (m n k t : ℕ) → t ≡ m + n + k → replicate t 0 ≡ slots m n k [] [] []
unfolding slots
slots-zero m n k t e =
    rw (e, replicate-pad, pad-add, pad-add) (append_assoc (pad m []) (pad n []) (pad k []))

write-first :
    (m n k : ℕ) (p : WideString)
    → length p ≤ m
    → write_at (slots m n k [] [] []) 0 p ≡ slots m n k p [] []
unfolding slots
write-first m n k p h = write_at-slot m (pad n [] ++ pad k []) p h

write-second :
    (m n k : ℕ) (p s : WideString)
    → length s ≤ n
    → write_at (slots m n k p [] []) (m + 0) s ≡ slots m n k p s []
unfolding slots
write-second m n k p s h =
    write_at-behind m p (pad n [] ++ pad k []) s 0
    ∙ ap (λ t. pad m p ++ t) (write_at-slot n (pad k []) s h)

write-last : (k : ℕ) (i : WideString) → length i ≤ k → write_at (pad k []) 0 i ≡ pad k i
write-last k i h =
    ap (λ t. write_at t 0 i) (sym (append-nil (pad k [])))
    ∙ write_at-slot k [] i h
    ∙ append-nil (pad k i)

write-third :
    (m n k : ℕ) (p s i : WideString)
    → length i ≤ k
    → write_at (slots m n k p s []) (m + (n + 0)) i ≡ slots m n k p s i
unfolding slots
write-third m n k p s i h =
    write_at-behind m p (pad n s ++ pad k []) i (n + 0)
    ∙ ap (λ t. pad m p ++ t)
        (write_at-behind n s (pad k []) i 0 ∙ ap (λ t. pad n s ++ t) (write-last k i h))

-- A string of at most n WCHARs with its NUL, cut to fit a slot of n + 1.
unfoldable pub cut : ℕ → WideString → WideString
cut n s = take n s ++ 0 ∷ []

length-cut : (n : ℕ) (s : WideString) → length (cut n s) ≤ suc n
unfolding cut
length-cut n s = omega (arith, length-append (take n s) (0 ∷ []), length-take n s)

take-HasNoNul : (n : ℕ) (s : WideString) → HasNoNul s → HasNoNul (take n s)
take-HasNoNul zero s h = tt
take-HasNoNul (suc n) [] h = tt
take-HasNoNul (suc n) (x ∷ s) h = (h.0, take-HasNoNul n s h.1)

c_string-cut :
    (n : ℕ) (s r : WideString) → HasNoNul s → c_string (pad (suc n) (cut n s) ++ r) ≡ take n s
unfolding cut
c_string-cut n s r h =
    c_string-pad (suc n) (take n s) r (take-HasNoNul n s h) (omega (arith, length-take n s))

-- The three calls of RbfNotifySetStr, at offsets and capacities that fit the slots.
three_sets :
    (a b c x y x' y' x'' y'' t : ℕ) (name store sid : WideString)
    → t ≡ suc a + suc b + suc c
    → (x ≡ notification_size) × (y ≡ 2 * a + 2)
    → (x' ≡ notification_size + 2 * suc a) × (y' ≡ 2 * b + 2)
    → (x'' ≡ notification_size + 2 * (suc a + suc b)) × (y'' ≡ 2 * c + 2)
    → (notify_set_str
        (notify_set_str (notify_set_str (replicate t 0) x y name).0 x' y' store).0
        x''
        y''
        sid).0
      ≡ slots (suc a) (suc b) (suc c) (cut a name) (cut b store) (cut c sid)
unfolding cut
three_sets a b c x y x' y' x'' y'' t name store sid e h h' h'' =
    rw
      (
        set_str_payload (replicate t 0) x y 0 a name (omega arith) h.1,
        slots-zero (suc a) (suc b) (suc c) t e,
        write-first (suc a) (suc b) (suc c) (cut a name) (length-cut a name),
        set_str_payload (slots (suc a) (suc b) (suc c) (cut a name) [] []) x' y' (suc a + 0) b store
            (omega arith) h'.1,
        write-second (suc a) (suc b) (suc c) (cut a name) (cut b store) (length-cut b store),
        set_str_payload (slots (suc a) (suc b) (suc c) (cut a name) (cut b store) []) x'' y''
            (suc a + (suc b + 0)) c sid (omega arith) h''.1,
      )
      (write-third (suc a) (suc b) (suc c) (cut a name) (cut b store) (cut c sid)
        (length-cut c sid))

-- The payload of a filled notification with slots of a + 1, b + 1 and c + 1 WCHARs.
pub fill_note-payload :
    (a b c : ℕ) (name store sid : WideString) (session : ℕ) (info : Option (ℕ × ℕ))
    → (fill_note name store sid session info
        (fresh_note (2 * a + 2) (2 * b + 2) (2 * c + 2))).payload
      ≡ slots (suc a) (suc b) (suc c) (cut a name) (cut b store) (cut c sid)
unfolding fill_note
fill_note-payload a b c name store sid session none =
    three_sets a b c _ _ _ _ _ _ _ name store sid (omega arith) (omega arith) (omega arith)
      (omega arith)
fill_note-payload a b c name store sid session (some info) =
    three_sets a b c _ _ _ _ _ _ _ name store sid (omega arith) (omega arith) (omega arith)
      (omega arith)

drop-add : (m n : ℕ) (s : WideString) → drop (m + n) s ≡ drop n (drop m s)
drop-add zero n s = rw zero-add
drop-add (suc m) zero [] = rw suc-add
drop-add (suc m) (suc n) [] = rw suc-add
drop-add (suc m) n (x ∷ s) = rw suc-add (drop-add m n s)

-- The strings that start at the three slots.
pub read_slots :
    (a b c : ℕ) (name store sid : WideString)
    → let p = slots (suc a) (suc b) (suc c) (cut a name) (cut b store) (cut c sid) in
      HasNoNul name
      → HasNoNul store
      → HasNoNul sid
      → (c_string (drop 0 p) ≡ take a name)
        × (c_string (drop (suc a) p) ≡ take b store)
        × (c_string (drop (suc a + suc b) p) ≡ take c sid)
unfolding slots
read_slots a b c name store sid hn hs hi =
    let third = pad (suc c) (cut c sid) in
    let second = pad (suc b) (cut b store) ++ third in
    (
      c_string-cut a name second hn,
      rw (drop-pad (suc a) (cut a name) second) (c_string-cut b store third hs),
      rw
          (
            drop-add (suc a) (suc b) (pad (suc a) (cut a name) ++ second),
            drop-pad (suc a) (cut a name) second,
            drop-pad (suc b) (cut b store) third,
            ← append-nil third,
          )
          (c_string-cut c sid [] hi),
    )
