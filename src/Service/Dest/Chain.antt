-- ===== src/Service/Dest/Chain.antt =====
-- service_c/rbrestore.c, RB-18: a directory chain is created from the top, without a gap.
use mathlib.Core.List.{append_assoc, append-nil}
use recyclebin_svc.Base.{
  ℕ, suc, ◌≤◌, ◌<◌, Bool, true, false, List, [], ◌∷◌, ◌++◌, ◌≡◌, ◌≢◌, inl, inr, refl, sym, ap, ◌∙◌,
  arith, subst, WideString, ◌==◌, length, take, drop, All, length-append, length-drop, Bool-cases,
  ==_iff,
}
use recyclebin_svc.Base.Wide.{backslash}
use recyclebin_svc.Base.Prefix.{SomeOf}
use recyclebin_svc.Service.Dest.{
  chain_from, before_trimmed, trim_separators, ensure_directory_chain,
}

-- Each path that was tried could be created, and the tried ones are, in order from the top, the texts
-- before each separator of `s` and all of it, each behind `done`.
pub record IsChain (create : WideString → Bool) (done s : WideString) (tried : List WideString)
    : Type 0 where
  pub created : All (λ p. create p ≡ true) tried
  pub complete : (a b : WideString) → s ≡ a ++ backslash ∷ b → SomeOf (λ p. p ≡ done ++ a) tried
  pub whole : SomeOf (λ p. p ≡ done ++ s) tried

not_nil {κ} : {X : Type κ} (a b : WideString) → [] ≡ a ++ backslash ∷ b → X
not_nil [] b e = absurd (cc)
not_nil (c ∷ a) b e = absurd (cc)

IsChain-end :
    (create : WideString → Bool) (done : WideString)
    → create done ≡ true
    → IsChain create done [] (done ∷ [])
IsChain-end create done ok = record {
  created = (ok, tt);
  complete = λ a b e. not_nil a b e;
  whole = inl (sym (append-nil done));
}

shift_some :
    (x y : WideString) (tried : List WideString)
    → x ≡ y
    → SomeOf (λ p. p ≡ x) tried
    → SomeOf (λ p. p ≡ y) tried
shift_some x y tried e h = subst (λ z. SomeOf (λ p. p ≡ z) tried) e h

behind_one :
    (create : WideString → Bool) (done s a b : WideString) (c d : ℕ) (tried : List WideString)
    → IsChain create (done ++ c ∷ []) s tried
    → c ∷ s ≡ d ∷ a ++ backslash ∷ b
    → SomeOf (λ p. p ≡ done ++ d ∷ a) tried
behind_one create done s a b c d tried i e =
    let head : c ≡ d = cc in
    let tail : s ≡ a ++ backslash ∷ b = cc in
    shift_some _ _ tried (append_assoc done (c ∷ []) a ∙ ap (λ z. done ++ z ∷ a) head)
      (i.complete a b tail)

later_complete :
    (create : WideString → Bool) (done s : WideString) (c : ℕ) (tried : List WideString)
    → c ≢ backslash
    → IsChain create (done ++ c ∷ []) s tried
    → (a b : WideString) → c ∷ s ≡ a ++ backslash ∷ b
    → SomeOf (λ p. p ≡ done ++ a) tried
later_complete create done s c tried plain i [] b e = absurd (plain (cc))
later_complete create done s c tried plain i (d ∷ a) b e =
    behind_one create done s a b c d tried i e

split_complete :
    (create : WideString → Bool) (done s : WideString) (tried : List WideString)
    → IsChain create (done ++ backslash ∷ []) s tried
    → (a b : WideString) → backslash ∷ s ≡ a ++ backslash ∷ b
    → SomeOf (λ p. p ≡ done ++ a) (done ∷ tried)
split_complete create done s tried i [] b e = inl (sym (append-nil done))
split_complete create done s tried i (d ∷ a) b e =
    inr (behind_one create done s a b backslash d tried i e)

-- The paths behind one more character.
IsChain-later :
    (create : WideString → Bool) (done s : WideString) (c : ℕ) (tried : List WideString)
    → c ≢ backslash
    → IsChain create (done ++ c ∷ []) s tried
    → IsChain create done (c ∷ s) tried
IsChain-later create done s c tried plain i = record {
  created = i.created;
  complete = later_complete create done s c tried plain i;
  whole = shift_some _ _ tried (append_assoc done (c ∷ []) s) i.whole;
}

IsChain-split :
    (create : WideString → Bool) (done s : WideString) (tried : List WideString)
    → create done ≡ true
    → IsChain create (done ++ backslash ∷ []) s tried
    → IsChain create done (backslash ∷ s) (done ∷ tried)
IsChain-split create done s tried ok i = record {
  created = (ok, i.created);
  complete = split_complete create done s tried i;
  whole = inr (shift_some _ _ tried (append_assoc done (backslash ∷ []) s) i.whole);
}

step-plain :
    (create : WideString → Bool) (done s : WideString) (c : ℕ)
    → (c == backslash) ≡ false
    → chain_from create done (c ∷ s) ≡ chain_from create (done ++ c ∷ []) s
unfolding chain_from
step-plain create done s c e = ground arith

step-split :
    (create : WideString → Bool) (done s : WideString)
    → create done ≡ true
    → chain_from create done (backslash ∷ s) ≡ (
      (chain_from create (done ++ backslash ∷ []) s).0,
      done ∷ (chain_from create (done ++ backslash ∷ []) s).1,
    )
unfolding chain_from
step-split create done s e = rw e refl

step-created :
    (create : WideString → Bool) (done s : WideString)
    → (chain_from create done (backslash ∷ s)).0 ≡ true
    → create done ≡ true
unfolding chain_from
step-created create done s h = ground arith

at_separator :
    (create : WideString → Bool) (done s : WideString)
    → ((chain_from create (done ++ backslash ∷ []) s).0 ≡ true
        → IsChain create
            (done ++ backslash ∷ [])
            s
            (chain_from create (done ++ backslash ∷ []) s).1)
    → (chain_from create done (backslash ∷ s)).0 ≡ true
    → IsChain create done (backslash ∷ s) (chain_from create done (backslash ∷ s)).1
at_separator create done s later h =
    let ok = step-created create done s h in
    let q = step-split create done s ok in
    subst (λ r. IsChain create done (backslash ∷ s) r.1) (sym q)
      (IsChain-split create done s _ ok (later (ap (λ r. r.0) (sym q) ∙ h)))

-- When the walk over a path succeeds it has created, or found, the path before each separator and
-- the whole path.
chain_from-IsChain :
    (create : WideString → Bool) (done s : WideString)
    → (chain_from create done s).0 ≡ true
    → IsChain create done s (chain_from create done s).1
unfolding chain_from
chain_from-IsChain create done [] h = IsChain-end create done h
chain_from-IsChain create done (c ∷ s) h = elim (Bool-cases (c == backslash)) [
  | inr e ↦
      let q = step-plain create done s c e in
      subst (λ r. IsChain create done (c ∷ s) r.1) (sym q)
        (IsChain-later create done s c _ (λ k. ground arith)
          (chain_from-IsChain create (done ++ c ∷ []) s (ap (λ r. r.0) (sym q) ∙ h)))
  | inl e ↦
      let same : c ≡ backslash = (==_iff c backslash).0 e in
      subst
        (λ d.
          (chain_from create done (d ∷ s)).0 ≡ true
          → IsChain create done (d ∷ s) (chain_from create done (d ∷ s)).1)
        (sym same)
        (at_separator create done s (chain_from-IsChain create (done ++ backslash ∷ []) s)) h
]

length-before : (c : ℕ) (t : WideString) → length (before_trimmed c t) ≤ suc (length t)
length-before c [] = ground arith
length-before c (d ∷ t) = omega arith

length-trim : (s : WideString) → length (trim_separators s) ≤ length s
unfolding trim_separators
length-trim [] = omega arith
length-trim (c ∷ s) = omega (arith, length-before c (trim_separators s), length-trim s)

chain_of :
    (create : WideString → Bool) (dir : WideString)
    → 0 < length (trim_separators (drop 3 dir))
    → (ensure_directory_chain create dir).0 ≡ true
    → ensure_directory_chain create dir
      ≡ chain_from create (take 3 dir) (trim_separators (drop 3 dir))
unfolding ensure_directory_chain
chain_of create dir deep h = ground (arith, length-trim (drop 3 dir), length-drop 3 dir)

-- When the directories above a destination are reported to be there, each path before a separator
-- below the drive was tried, and each path that was tried was created or found.
ensure_directory_chain-above :
    (create : WideString → Bool) (dir a b : WideString)
    → trim_separators (drop 3 dir) ≡ a ++ backslash ∷ b
    → (ensure_directory_chain create dir).0 ≡ true
    → SomeOf (λ p. p ≡ take 3 dir ++ a) (ensure_directory_chain create dir).1
      × All (λ p. create p ≡ true) (ensure_directory_chain create dir).1
ensure_directory_chain-above create dir a b split h =
    let q = chain_of create dir (rw split (omega (arith, length-append a (backslash ∷ b)))) h in
    let c =
      chain_from-IsChain create (take 3 dir) (trim_separators (drop 3 dir))
        (ap (λ r. r.0) (sym q) ∙ h) in
    subst (λ r. SomeOf (λ p. p ≡ take 3 dir ++ a) r.1 × All (λ p. create p ≡ true) r.1) (sym q)
      (c.complete a b split, c.created)
