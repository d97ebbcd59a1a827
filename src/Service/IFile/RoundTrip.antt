-- ===== src/Service/IFile/RoundTrip.antt =====
-- service_c/rbstore.c: what a reader of the documented $I format, version 2, finds in the file.
use recyclebin_svc.Base.{
  ℕ, ◌+◌, ◌*◌, ◌<◌, true, Option, none, some, List, [], ◌∷◌, ◌++◌, ◌≡◌, WideString, ◌==◌,
  if◌then◌else◌, length, take, drop, u32,
}
use recyclebin_svc.Service.FileSystem.{FileSystem}
use recyclebin_svc.Service.IFile.{wide_bytes, i_header, IFiles}

abbrev pub from_le : List ℕ → ℕ
from_le [] = 0
from_le (b ∷ bs) = b + 256 * from_le bs

-- The UTF-16 units up to the NUL, which has to be there.
unfoldable pub read_text : List ℕ → Option WideString
read_text [] = none
read_text (b ∷ []) = none
read_text (b ∷ c ∷ bs) =
    if b + 256 * c == 0
    then some []
    else elim (read_text bs) [ none ↦ none | some s ↦ some ((b + 256 * c) ∷ s) ]

pub record Metadata : Type 0 where
  pub file_size : ℕ
  pub delete_time : ℕ
  pub path : WideString

abbrev pub with_path : ℕ → ℕ → ℕ → Option WideString → Option Metadata
with_path size time len none = none
with_path size time len (some path) =
    if length path + 1 == len
    then some (record { file_size = size; delete_time = time; path = path })
    else none

-- By the offsets of the format: 0x00 version, 0x08 size, 0x10 time, 0x18 length, 0x1C path.
unfoldable pub read_i : List ℕ → Option Metadata
read_i bs =
    if from_le (take 8 bs) == 2
    then with_path (from_le (take 8 (drop 8 bs))) (from_le (take 8 (drop 16 bs)))
        (from_le (take 4 (drop 24 bs))) (read_text (drop 28 bs))
    else none

-- What a file holds, for a file that `create` and `write` make.
pub record IsIFiles (F : Type 0) (i_files : IFiles F) (content : F → WideString → List ℕ)
    : Type 0 where
  pub created : (s t : F) (p : WideString) → i_files.create s p ≡ some t → content t p ≡ []
  pub written :
      (s : F) (p : WideString) (bs : List ℕ)
      → (i_files.write s p bs).0 ≡ true
      → content (i_files.write s p bs).1 p ≡ content s p ++ bs

-- A UTF-16 unit that is not the NUL.
abbrev pub IsUnitOf : ℕ → Type 0
IsUnitOf c = (0 < c) × (c < 65536)

-- The bytes that a complete $I file holds.
abbrev i_bytes : WideString → ℕ → ℕ → List ℕ
i_bytes path size time = i_header size time (u32 (length path + 1)) ++ wide_bytes (path ++ 0 ∷ [])
