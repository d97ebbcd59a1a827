-- ===== src/Service/IFile.antt =====
-- service_c/rbstore.c: the $I metadata file that the Windows recycle bin reads.
pub mod RoundTrip
use recyclebin_svc.Base.{
  ℕ, zero, suc, ◌+◌, ◌*◌, ◌/◌, ◌%◌, Bool, true, false, ◌&&◌, Option, none, some, List, [], ◌∷◌,
  ◌++◌, WideString, ◌==◌, if◌then◌else◌, length, take, drop, u32, u64,
}
use recyclebin_svc.Service.FileSystem.{FileSystem}

-- The bytes of an integer, the lowest first.
unfoldable pub le_bytes : ℕ → ℕ → List ℕ
le_bytes zero n = []
le_bytes (suc k) n = (n % 256) ∷ le_bytes k (n / 256)

unfoldable pub wide_bytes : WideString → List ℕ
wide_bytes [] = []
wide_bytes (c ∷ s) = le_bytes 2 c ++ wide_bytes s

-- Whole seconds since 1970 as 100 ns ticks since 1601, in a LONG64. The product is computed in a
-- double, which holds it exactly while it is below 2^53 * 128.
unfoldable pub unix_to_file_time : ℕ → ℕ
unix_to_file_time seconds = u64 ((seconds + 11644473600) * 10000000)

-- RB_I_HEADER, packed: `path_len` counts the NUL.
abbrev pub i_header : ℕ → ℕ → ℕ → List ℕ
i_header file_size delete_time path_len =
    le_bytes 8 2 ++ (le_bytes 8 file_size ++ (le_bytes 8 delete_time ++ le_bytes 4 path_len))

-- CreateFileW with CREATE_ALWAYS, and WriteFile behind what was written: whether it succeeds, and
-- the state.
pub record IFiles (F : Type 0) : Type 0 where
  pub create : F → WideString → Option F
  pub write : F → WideString → List ℕ → Bool × F

module _ {F : Type 0} (fs : FileSystem F) (i_files : IFiles F) where
  unfoldable pub write_created : WideString → WideString → ℕ → ℕ → Option F → F → Bool × F
  write_created i_path orig_dos file_size delete_time none before = (false, before)
  write_created i_path orig_dos file_size delete_time (some files) before =
      let path_len = u32 (length orig_dos + 1) in
      let head =
        i_files.write files i_path (i_header file_size (unix_to_file_time delete_time) path_len) in
      let path =
        i_files.write head.1 i_path (take (u32 (path_len * 2)) (wide_bytes (orig_dos ++ 0 ∷ []))) in
      if head.0 && path.0 then (true, path.1) else (false, fs.delete path.1 i_path)

  unfoldable pub write_i_file : WideString → WideString → ℕ → ℕ → F → Bool × F
  write_i_file i_path orig_dos file_size delete_time files =
      write_created i_path orig_dos file_size delete_time (i_files.create files i_path) files
