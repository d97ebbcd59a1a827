-- ===== src/Service/Text.antt =====
-- service_c/rbdb.c, WToU8 and U8ToW: a text on its way into the database and out of it. UTF-8 has no
-- surrogates, and WideCharToMultiByte puts U+FFFD for one that is not half of a pair.
use recyclebin_svc.Base.{
  ℕ, Bool, false, ◌||◌, Option, none, some, [], ◌∷◌, ◌≡◌, refl, arith, WideString, ltb, leb, ◌&&◌,
  if◌then◌else◌, All,
}

abbrev is_high : ℕ → Bool
is_high c = leb 55296 c && ltb c 56320

abbrev is_low : ℕ → Bool
is_low c = leb 56320 c && ltb c 57344

-- The rest of a text, behind the first half of a pair or not.
unfoldable pub u8_from : Option ℕ → WideString → WideString
u8_from none [] = []
u8_from (some high) [] = 65533 ∷ []
u8_from none (c ∷ s) =
    let rest = u8_from none s in
    let half = u8_from (some c) s in
    if is_high c then half else if is_low c then 65533 ∷ rest else c ∷ rest
u8_from (some high) (c ∷ s) =
    let rest = u8_from none s in
    let half = u8_from (some c) s in
    if is_low c then high ∷ c ∷ rest else if is_high c then 65533 ∷ half else 65533 ∷ c ∷ rest

-- What comes back of a text that was written.
abbrev pub u8_text : WideString → WideString
u8_text = u8_from none

-- A text without surrogates comes back as it was.
u8_text-plain : (s : WideString) → All (λ c. (is_high c || is_low c) ≡ false) s → u8_text s ≡ s
unfolding u8_from
u8_text-plain [] h = refl
u8_text-plain (c ∷ s) h = ground (arith, h.0, u8_text-plain s h.1)
