-- ===== src/Core/Text.antt =====
-- The texts of mostcore/core.c, as lists of the codes before the final zero, and the functions of the
-- kernel's string library that the code uses.
use unicens2_driver.Common.{
  ℕ, zero, suc, ◌≤◌, ◌≡◌, Bool, true, false, ◌&&◌, Option, none, some, List, [], ◌∷◌, ◌++◌, ◌==◌,
  if◌then◌else◌, refl, arith, length, ap₂, ◌⊎◌, inl, inr, Bool-cases, ==_iff,
}
use Prim.Native.Char.{code}
use Prim.Native.String.{String, [] as empty, ◌∷◌ as ◌▹◌}

abbrev pub Text : Type 0
Text = List ℕ

abbrev pub text : String → Text
text empty = []
text (c ▹ s) = code c ∷ text s

abbrev pub colon : ℕ
colon = 58

abbrev pub newline : ℕ
newline = 10

-- `!strcmp`.
abbrev pub str_eq : Text → Text → Bool
str_eq [] [] = true
str_eq [] (x ∷ xs) = false
str_eq (x ∷ xs) [] = false
str_eq (x ∷ xs) (y ∷ ys) = (x == y) && str_eq xs ys

pub str_eq_refl : (t : Text) → str_eq t t ≡ true
str_eq_refl [] = refl
str_eq_refl (x ∷ t) = ground (arith, str_eq_refl t)

pub str_cases : (t u : Text) → (t ≡ u) ⊎ (str_eq t u ≡ false)
str_cases [] [] = inl refl
str_cases [] (y ∷ u) = inr refl
str_cases (x ∷ t) [] = inr refl
str_cases (x ∷ t) (y ∷ u) = elim (str_cases t u) [
  | inl e ↦ elim (Bool-cases (x == y)) [
    | inl d ↦ inl (ap₂ ◌∷◌ ((==_iff x y).0 d) e)
    | inr d ↦ inr (rw d refl)
  ]
  | inr e ↦ inr (rw e (ground arith))
]

-- What stands before the first delimiter, and what stands after it, if there is one.
abbrev pub cut : (ℕ → Bool) → Text → Text × Option Text
cut delim [] = ([], none)
cut delim (x ∷ t) = let (a, rest) = cut delim t in if delim x then ([], some t) else (x ∷ a, rest)

-- `strsep` on a pointer, where `none` is the null pointer: the token and the new pointer.
abbrev pub strsep : (ℕ → Bool) → Option Text → Option Text × Option Text
strsep delim none = (none, none)
strsep delim (some t) = let (a, rest) = cut delim t in (some a, rest)

abbrev pub take : ℕ → Text → Text
take zero t = []
take (suc n) [] = []
take (suc n) (x ∷ t) = x ∷ take n t

-- `strlcpy` into a buffer of `size` bytes, the final zero included; with size 0 nothing is written.
abbrev pub strlcpy : ℕ → Text → Text
strlcpy zero t = []
strlcpy (suc n) t = take n t

pub take-all : (n : ℕ) (t : Text) → length t ≤ n → take n t ≡ t
take-all zero [] h = refl
take-all zero (x ∷ t) h = absurd (omega (arith, h))
take-all (suc n) [] h = refl
take-all (suc n) (x ∷ t) h = ap₂ ◌∷◌ refl (take-all n t (omega arith))

-- No code of the text is a delimiter.
abbrev pub Lacks : (ℕ → Bool) → Text → Type 0
Lacks delim [] = Unit {0}
Lacks delim (x ∷ t) = (delim x ≡ false) × Lacks delim t

pub cut-end : (delim : ℕ → Bool) (t : Text) → Lacks delim t → cut delim t ≡ (t, none)
cut-end delim [] h = refl
cut-end delim (x ∷ t) h = rw (cut-end delim t h.1, h.0) refl

pub cut-append :
    (delim : ℕ → Bool) (t u : Text) (d : ℕ)
    → Lacks delim t
    → delim d ≡ true
    → cut delim (t ++ d ∷ u) ≡ (t, some u)
cut-append delim [] u d h e = rw e refl
cut-append delim (x ∷ t) u d h e = rw (cut-append delim t u d h.1 e, h.0) refl
