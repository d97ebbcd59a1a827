-- ===== src/Service/Db/Like.antt =====
-- service_c/rbdb.c: the escaped LIKE pattern matches exactly the texts that begin with the prefix.
use recyclebin_svc.Base.{
  ℕ, Bool, true, false, ◌&&◌, ◌||◌, [], ◌∷◌, ◌++◌, ◌≡◌, refl, ◌∙◌, arith, WideString, ◌==◌,
  Bool-cases, inl, inr,
}
use recyclebin_svc.Base.Wide.{backslash, to_lower, wide_eq, starts_with_text}
use recyclebin_svc.Service.Db.{sql_like_escape, sql_like, literal, any_suffix}

any_suffix-all : (t : WideString) → any_suffix (sql_like false []) t ≡ true
unfolding sql_like
any_suffix-all [] = refl
any_suffix-all (c ∷ t) = ground (arith, any_suffix-all t)

-- One escaped character of the pattern matches that character, and nothing else.
escape_step :
    (c : ℕ) (s q t : WideString)
    → sql_like false (sql_like_escape (c ∷ s) ++ q) t
      ≡ literal c (sql_like false (sql_like_escape s ++ q)) t
unfolding sql_like sql_like_escape
escape_step c s q t = elim (Bool-cases (c == b'%' || c == b'_' || c == backslash)) [
  | inl e ↦ rw e refl
  | inr e ↦ rw e (ground arith)
]

starts_empty : (t : WideString) → sql_like false (b'%' ∷ []) t ≡ starts_with_text [] t
unfolding sql_like wide_eq
starts_empty t = any_suffix-all t

starts_nothing : (c : ℕ) (p : WideString) → false ≡ starts_with_text (c ∷ p) []
unfolding wide_eq
starts_nothing c p = refl

starts_step :
    (c d : ℕ) (p t : WideString) {b : Bool}
    → b ≡ starts_with_text p t
    → (to_lower c == to_lower d && b) ≡ starts_with_text (c ∷ p) (d ∷ t)
unfolding wide_eq
starts_step c d p t {b} e = rw e refl

-- The pattern of the tree query, the prefix with its wildcards escaped and a final %, matches a path
-- exactly if the path begins with the prefix, letters in any case. It is a prefix of characters and not
-- of directories: the pattern of D:\Share\Project also matches D:\Share\ProjectBackup.
pub sql_like-escape :
    (p t : WideString) → sql_like false (sql_like_escape p ++ b'%' ∷ []) t ≡ starts_with_text p t
unfolding sql_like_escape
sql_like-escape [] t = starts_empty t
sql_like-escape (c ∷ p) [] = escape_step c p (b'%' ∷ []) [] ∙ starts_nothing c p
sql_like-escape (c ∷ p) (d ∷ t) =
    escape_step c p (b'%' ∷ []) (d ∷ t) ∙ starts_step c d p t (sql_like-escape p t)
