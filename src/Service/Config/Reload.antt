-- ===== src/Service/Config/Reload.antt =====
-- service_c/rbconfig.c: what a reload adopts and what it refuses, and the protected paths as they were written.
use recyclebin_svc.Base.{
  ℕ, ◌<◌, Bool, true, false, Option, none, some, List, [], ◌∷◌, ◌≡◌, ◌⊎◌, inl, inr, refl, arith,
  WideString, ◌==◌, if◌then◌else◌, length, if-cases, ==_iff,
}
use recyclebin_svc.Service.Config.{Config, RegKey, protected_or_default, config_load, reload_config}

-- Settings that a maintenance pass may run on.
pub record IsSane (c : Config) : Type 0 where
  pub keeps : 0 < c.retention_days
  pub rooted : 0 < length c.store_root
  pub guarded : 0 < length c.protected_paths

protected_or_default-some : (ps : List WideString) → 0 < length (protected_or_default ps)
protected_or_default-some [] = omega arith
protected_or_default-some (p ∷ ps) = omega arith

config_load-guarded : (key : Option RegKey) → 0 < length (config_load key).protected_paths
unfolding config_load
config_load-guarded none = omega arith
config_load-guarded (some key) = protected_or_default-some _

not_zero : (n : ℕ) → (n == 0) ≡ false → 0 < n
not_zero n h = ground arith

-- A reload adopts what the registry holds, as a whole, and then a file is kept for a day at least, the
-- store has a root and there is a protected path; or it changes nothing, and then the registry asks for 0
-- days or an empty root.
pub reload_config-IsSane :
    (key : Option RegKey) (old : Config)
    → let r = reload_config key old in
      ((r.0 ≡ true) × (r.1 ≡ config_load key) × IsSane r.1)
      ⊎ ((r.0 ≡ false)
          × (r.1 ≡ old)
          × (((config_load key).retention_days ≡ 0) ⊎ (length (config_load key).store_root ≡ 0)))
unfolding reload_config
reload_config-IsSane key old =
    let next = config_load key in
    let Kept : Bool × Config → Type 0 = λ r.
      ((r.0 ≡ true) × (r.1 ≡ next) × IsSane r.1)
      ⊎ ((r.0 ≡ false)
          × (r.1 ≡ old)
          × ((next.retention_days ≡ 0) ⊎ (length next.store_root ≡ 0))) in
    let last : Bool × Config = if length next.store_root == 0 then (false, old) else (true, next) in
    if-cases Kept (next.retention_days == 0) (false, old) last
      (λ no_days. inr (refl, refl, inl ((==_iff next.retention_days 0).0 no_days)))
      (λ some_days.
        if-cases Kept (length next.store_root == 0) (false, old) (true, next)
          (λ no_root. inr (refl, refl, inr ((==_iff (length next.store_root) 0).0 no_root)))
          (λ some_root. inl (
            refl,
            refl,
            record {
              keeps = not_zero _ some_days;
              rooted = not_zero _ some_root;
              guarded = config_load-guarded key;
            },
          )))
