-- ===== src/Driver/Cache/Slots.antt =====
-- driver/rbminiflt.c: what the fingerprint cache answers.
use recyclebin_svc.Base.{
  ℕ, zero, suc, ◌+◌, ◌*◌, ◌%◌, ◌<◌, true, false, List, [], ◌∷◌, ◌≡◌, ◌≢◌, refl, ap, ◌∙◌, arith,
  WideString, u32, ◌==◌, get_or, set, length, ==_refl,
}
use Prim.Native.Nat.{bit_xor}
use recyclebin_svc.Base.Wide.{to_lower, lower}
use recyclebin_svc.Driver.State.{rbf_store_cache_size}
use recyclebin_svc.Driver.Cache.{
  hash_unicode, store_fingerprint, store_cache_lookup, remember_from, store_cache_remember,
  store_cache_forget,
}

-- The value that marks an empty slot is no fingerprint.
store_fingerprint-nonzero : (volume sid : WideString) → store_fingerprint volume sid ≢ 0
unfolding store_fingerprint
store_fingerprint-nonzero volume sid = ground arith

lookup-set :
    (fp i : ℕ) (slots : List ℕ) → i < length slots → store_cache_lookup fp (set slots i fp) ≡ true
unfolding store_cache_lookup
lookup-set fp i [] h = absurd (omega arith)
lookup-set fp zero (s ∷ slots) h = ground (arith, ==_refl fp)
lookup-set fp (suc i) (s ∷ slots) h = ground (arith, lookup-set fp i slots)

lookup-get :
    (fp i : ℕ) (slots : List ℕ)
    → i < length slots
    → (get_or slots i 0 == fp) ≡ true
    → store_cache_lookup fp slots ≡ true
unfolding store_cache_lookup
lookup-get fp i [] h e = absurd (omega arith)
lookup-get fp zero (s ∷ slots) h e = ground arith
lookup-get fp (suc i) (s ∷ slots) h e = ground (arith, lookup-get fp i slots)

remember_from-lookup :
    (fp start i rounds : ℕ) (slots : List ℕ)
    → length slots ≡ rbf_store_cache_size
    → start < rbf_store_cache_size
    → store_cache_lookup fp (remember_from fp start i rounds slots) ≡ true
unfolding remember_from
remember_from-lookup fp start i zero slots size h = lookup-set fp start slots (omega arith)
remember_from-lookup fp start i (suc rounds) slots size h =
    let idx = (start + i) % rbf_store_cache_size in
    let room : idx < length slots = omega arith in
    ground (
      arith,
      lookup-set fp idx slots room,
      lookup-get fp idx slots room,
      remember_from-lookup fp start (suc i) rounds slots size h,
    )

-- Once a directory's fingerprint was remembered in the 16 slots, it is found, wherever the round-robin
-- counter stood and however full the cache was.
store_cache_remember-lookup :
    (fp next : ℕ) (slots : List ℕ)
    → length slots ≡ rbf_store_cache_size
    → store_cache_lookup fp (store_cache_remember fp next slots).0 ≡ true
unfolding store_cache_remember
store_cache_remember-lookup fp next slots size =
    remember_from-lookup fp (u32 (next + 1) % rbf_store_cache_size) 0 rbf_store_cache_size slots
      size (omega arith)

-- After a fingerprint was forgotten it is not found, and every other fingerprint is found as before.
store_cache_forget-lookup :
    (fp other : ℕ) (slots : List ℕ)
    → fp ≢ 0
    → other ≢ 0
    → other ≢ fp
    → (store_cache_lookup fp (store_cache_forget fp slots) ≡ false)
      × (store_cache_lookup other (store_cache_forget fp slots) ≡ store_cache_lookup other slots)
unfolding store_cache_forget store_cache_lookup
store_cache_forget-lookup fp other [] hf ho hd = (refl, refl)
store_cache_forget-lookup fp other (s ∷ slots) hf ho hd =
    let rest = store_cache_forget-lookup fp other slots hf ho hd in ground (arith, rest.0, rest.1)

to_lower_twice : (c : ℕ) → to_lower (to_lower c) ≡ to_lower c
unfolding to_lower
to_lower_twice c = ground arith

-- The fingerprint does not see the case of A to Z.
hash_unicode-lower : (s : WideString) (hash : ℕ) → hash_unicode (lower s) hash ≡ hash_unicode s hash
unfolding hash_unicode
hash_unicode-lower [] hash = refl
hash_unicode-lower (c ∷ s) hash =
    ap (λ d. hash_unicode (lower s) (u32 (bit_xor hash d * 16777619))) (to_lower_twice c)
    ∙ hash_unicode-lower s _
