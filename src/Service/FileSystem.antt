-- ===== src/Service/FileSystem.antt =====
-- What service_c/ asks of the Windows file system, as operations on a state `F` of it, and a file
-- system that answers them. Security descriptors and attributes are not part of it.
use recyclebin_svc.Base.{
  Bool, true, not, Option, none, some, List, [], ◌∷◌, ◌++◌, ◌≡◌, ◌≢◌, refl, arith, WideString, any,
  filter_by, if◌then◌else◌, sym, subst, ◌∙◌, Bool-cases, inl, inr,
}
use recyclebin_svc.Base.Wide.{wide_eq, wide_eq_refl, wide_eq→eq}

-- `exists`: GetFileAttributesW succeeds. `move`: MoveFileExW, none if it fails. `creates`: the answer
-- of each CreateDirectoryW of one chain that starts in this state, whether it made or found the
-- directory (a chain tries no path twice). `with_directories`: the state after such calls. `delete`:
-- DeleteFileW.
pub record FileSystem (F : Type 0) : Type 0 where
  pub exists : F → WideString → Bool
  pub move : F → WideString → WideString → Option F
  pub creates : F → WideString → Bool
  pub with_directories : F → List WideString → F
  pub delete : F → WideString → F

-- What is documented: after a move that succeeds the file is under its new name, and deleting one
-- path does not remove another.
pub record IsFileSystem (F : Type 0) (fs : FileSystem F) : Type 0 where
  pub moved : (s t : F) (a b : WideString) → fs.move s a b ≡ some t → fs.exists t b ≡ true
  pub deleted :
      (s : F) (a b : WideString) → a ≢ b → fs.exists s b ≡ true → fs.exists (fs.delete s a) b ≡ true

-- A file system that is the list of its paths.
abbrev pub list_fs : FileSystem (List WideString)
list_fs = record {
  exists = λ s p. any (wide_eq p) s;
  move =
      λ s a b. if any (wide_eq a) s then some (b ∷ filter_by (λ q. not (wide_eq a q)) s) else none;
  creates = λ s p. true;
  with_directories = λ s ps. ps ++ s;
  delete = λ s p. filter_by (λ q. not (wide_eq p q)) s;
}

some-injective : (a b : List WideString) → some a ≡ some b → a ≡ b
some-injective a b e = cc

found_first : (b : WideString) (s : List WideString) → any (wide_eq b) (b ∷ s) ≡ true
found_first b s = rw (wide_eq_refl b) refl

moved_there :
    (s t : List WideString) (a b : WideString)
    → list_fs.move s a b ≡ some t
    → list_fs.exists t b ≡ true
moved_there s t a b h = elim (Bool-cases (any (wide_eq a) s)) [
  | inl e ↦
      subst (λ u. any (wide_eq b) u ≡ true) (some-injective _ t (rw e at h))
        (found_first b (filter_by (λ q. not (wide_eq a q)) s))
  | inr e ↦ absurd (cc (rw e at h))
]

other_kept :
    (s : List WideString) (a b : WideString)
    → a ≢ b
    → list_fs.exists s b ≡ true
    → list_fs.exists (list_fs.delete s a) b ≡ true
other_kept [] a b differ h = h
other_kept (p ∷ s) a b differ h =
    let both : wide_eq a p ≡ true → wide_eq b p ≡ true → ⊥ =
      λ e f. differ (wide_eq→eq a p e ∙ sym (wide_eq→eq b p f)) in
    ground (arith, other_kept s a b differ, both)

pub list_fs-IsFileSystem : IsFileSystem (List WideString) list_fs
list_fs-IsFileSystem = record { moved = moved_there; deleted = other_kept }
