-- ===== src/Base/Word.antt =====
-- ULONG and ULONG64 arithmetic: the wrap-around is written out.
use Prim.Native.Nat.{ℕ, ◌+◌, ◌%◌}

abbrev pub u32 : ℕ → ℕ
u32 n = n % 4294967296

abbrev pub u64 : ℕ → ℕ
u64 n = n % 18446744073709551616

abbrev pub inc32 : ℕ → ℕ
inc32 n = u32 (n + 1)

-- `n--` on a ULONG: 0 goes to the largest value
abbrev pub dec32 : ℕ → ℕ
dec32 n = u32 (n + 4294967295)

abbrev pub inc64 : ℕ → ℕ
inc64 n = u64 (n + 1)
