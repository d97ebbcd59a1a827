-- ===== src/Driver/Cache.antt =====
-- driver/rbminiflt.c, RB-19: the fingerprint cache of staging directories that were created.
pub mod Slots
use recyclebin_svc.Base.{
  ℕ, zero, suc, ◌+◌, ◌*◌, ◌%◌, Bool, true, false, ◌&&◌, not, Option, none, some, List, [], ◌∷◌,
  WideString, u32, leb, ◌==◌, if◌then◌else◌, get_or, set, any, map, ◌++◌,
}
use recyclebin_svc.Base.Wide.{wide, to_lower}
use Prim.Native.Nat.{bit_xor}
use recyclebin_svc.Driver.State.{
  Status, success, insufficient_resources, failure, buffer_too_small, Global, rbf_store_cache_size,
  rbf_max_path,
}
use recyclebin_svc.Driver.Kernel.{append_to, and_append}

-- FNV-1a over the code units, A to Z folded to lower case.
unfoldable pub hash_unicode : WideString → ℕ → ℕ
hash_unicode [] hash = hash
hash_unicode (c ∷ s) hash = hash_unicode s (u32 (bit_xor hash (to_lower c) * 16777619))

-- 0 marks an empty slot, so it is no fingerprint.
unfoldable pub store_fingerprint : WideString → WideString → ℕ
store_fingerprint volume sid =
    let h = hash_unicode sid (hash_unicode volume 2166136261) in if h == 0 then 1 else h

unfoldable pub store_cache_lookup : ℕ → List ℕ → Bool
store_cache_lookup fp slots = any (λ s. s == fp) slots

-- The loop of `RbfStoreCacheRemember` over the rounds left: the slot at `start` + i is taken if it
-- holds the fingerprint already or is empty; with no such slot, the one at `start` is evicted.
unfoldable pub remember_from : ℕ → ℕ → ℕ → ℕ → List ℕ → List ℕ
remember_from fp start i zero slots = set slots start fp
remember_from fp start i (suc rounds) slots =
    let idx = (start + i) % rbf_store_cache_size in
    let rest = remember_from fp start (suc i) rounds slots in
    if get_or slots idx 0 == fp
    then slots
    else if get_or slots idx 0 == 0
    then set slots idx fp
    else rest

-- `next` is the static round-robin counter, incremented first, a LONG read as ULONG.
unfoldable pub store_cache_remember : ℕ → ℕ → List ℕ → List ℕ × ℕ
unfolding remember_from
store_cache_remember fp next slots =
    let turn = u32 (next + 1) in
    (remember_from fp (turn % rbf_store_cache_size) 0 rbf_store_cache_size slots, turn)

unfoldable pub store_cache_forget : ℕ → List ℕ → List ℕ
store_cache_forget fp = map (λ s. if s == fp then 0 else s)

-- What the rest of the system answers to `RbfEnsureStoreDir`: the path buffer, and for each path
-- whether the directory was created or opened (`RbfCreateDirectory`).
pub record DirEnv : Type 0 where
  pub path_pool : Bool
  pub create_directory : WideString → Bool

abbrev created : DirEnv → Option WideString → Bool
created env none = false
created env (some path) = env.create_directory path

-- Both directories, in order: the second only after the first.
unfoldable pub make_dirs : DirEnv → WideString → WideString → Bool
make_dirs env volume sid =
    let store = and_append (and_append (some []) volume) (wide "\\RBStore") in
    created env store && created env (and_append store sid)

unfoldable pub ensure_store_dir : DirEnv → WideString → WideString → Global → Status × Global
ensure_store_dir env volume sid g =
    let fp = store_fingerprint volume sid in
    let kept = store_cache_remember fp g.cache_next g.store_cache in
    if store_cache_lookup fp g.store_cache
    then (success, g)
    else if not env.path_pool
    then (insufficient_resources, g)
    else if make_dirs env volume sid
    then (success, record g { store_cache = kept.0; cache_next = kept.1 })
    else (failure, g)
