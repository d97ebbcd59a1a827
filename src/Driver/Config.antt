-- ===== src/Driver/Config.antt =====
-- driver/rbminiflt.c: `RbfLoadConfig` and `RbfFreeConfig`. A REG_MULTI_SZ value is the WCHARs of its
-- data, terminated or not; an odd last byte is never read.
pub mod MultiString
use recyclebin_svc.Base.{
  ℕ, zero, suc, Bool, true, false, not, ◌||◌, Option, none, some, List, [], ◌∷◌, map, WideString,
  ltb, leb, ◌==◌, if◌then◌else◌, length,
}
use recyclebin_svc.Base.Wide.{wide}
use recyclebin_svc.Driver.State.{
  Stats, Global, rbf_max_path, rbf_max_name, rbf_max_protected, rbf_max_exclude,
}
use recyclebin_svc.Driver.Kernel.{Kernel}

-- A value as ZwQueryValueKey returns it in the buffer of 16384 bytes: a DWORD with its data length, a
-- multi-string, or another type.
pub data RegValue : Type 0 where
  dword : ℕ → ℕ → RegValue
  multi_string : WideString → RegValue
  other_type : RegValue

-- The Parameters key: whether it opens, whether the pool gives the query buffer, and its values.
pub record Registry : Type 0 where
  pub opens : Bool
  pub pool : Bool
  pub query : WideString → Option RegValue

-- The inner loop: up to a NUL, which is skipped, or the end of the data.
unfoldable pub segment : WideString → WideString × WideString
segment [] = ([], [])
segment (c ∷ s) = let r = segment s in if c == 0 then ([], s) else (c ∷ r.0, r.1)

-- The outer loop with `room` entries left, on fuel. A string of `max_len` WCHARs or more is skipped.
unfoldable pub multi_walk : (ℕ → ℕ) → ℕ → ℕ → ℕ → WideString → List WideString
multi_walk upcase max_len zero room blob = []
multi_walk upcase max_len (suc fuel) zero blob = []
multi_walk upcase max_len (suc fuel) (suc room) [] = []
multi_walk upcase max_len (suc fuel) (suc room) (c ∷ s) =
    let seg = segment (c ∷ s) in
    let taken = multi_walk upcase max_len fuel room seg.1 in
    let skipped = multi_walk upcase max_len fuel (suc room) seg.1 in
    if c == 0 then [] else if ltb (length seg.0) max_len then map upcase seg.0 ∷ taken else skipped

-- Each round reads one WCHAR at least, so there are no more rounds than WCHARs.
abbrev pub read_multi : (ℕ → ℕ) → ℕ → ℕ → WideString → List WideString
read_multi upcase max_len max_count blob = multi_walk upcase max_len (length blob) max_count blob

unfoldable pub value_strings : (ℕ → ℕ) → ℕ → ℕ → Option RegValue → List WideString
value_strings upcase max_len max_count (some (multi_string blob)) =
    read_multi upcase max_len max_count blob
value_strings upcase max_len max_count (some (dword _ _)) = []
value_strings upcase max_len max_count (some other_type) = []
value_strings upcase max_len max_count none = []

unfoldable pub fail_closed_value : Option RegValue → Bool → Bool
fail_closed_value (some (dword len v)) old = if leb 4 len then not (v == 0) else old
fail_closed_value (some (multi_string _)) old = old
fail_closed_value (some other_type) old = old
fail_closed_value none old = old

abbrev pub default_patterns : List WideString
default_patterns = wide "~$*" ∷ wide "~WRF*.tmp" ∷ wide "~DF*.tmp" ∷ wide "*.tmp" ∷ []

unfoldable pub or_defaults : (ℕ → ℕ) → List WideString → List WideString
or_defaults upcase [] = map (map upcase) default_patterns
or_defaults upcase (p ∷ ps) = p ∷ ps

-- `RbfLoadConfig`, which returns STATUS_SUCCESS on each way out.
unfoldable pub load_config : Kernel → Registry → Global → Global
load_config k reg g =
    if not reg.opens || not reg.pool
    then g
    else let protected =
        value_strings k.upcase rbf_max_path rbf_max_protected (reg.query (wide "ProtectedPaths")) in
      record g {
        fail_closed = fail_closed_value (reg.query (wide "FailClosed")) g.fail_closed;
        protected = protected;
        stats = record g.stats { protected_count = length protected };
        exclude = or_defaults k.upcase (
            value_strings k.upcase rbf_max_name rbf_max_exclude
              (reg.query (wide "ExcludePatterns")));
      }

-- The counts go to 0; the published count stays.
unfoldable pub free_config : Global → Global
free_config g = record g { protected = []; exclude = [] }
