-- ===== src/Cdev/Bytes.antt =====
-- aim-cdev/cdev.c, the bytes in a sequence of buffers.
use unicens2_driver.Common.{
  ℕ, zero, suc, ◌+◌, ◌≤◌, ◌≡◌, refl, sym, ◌∙◌, ap, arith, List, [], ◌∷◌, ◌++◌, length,
}
use unicens2_driver.Core.Text.{take}
use unicens2_driver.Cdev.{CdevMbo, drop}

abbrev pub bytes_of : List CdevMbo → List ℕ
bytes_of [] = []
bytes_of (m ∷ ms) = m.bytes ++ bytes_of ms

pub append_nil : (xs : List ℕ) → xs ++ [] ≡ xs
append_nil [] = refl
append_nil (x ∷ xs) = ap (λ ys. x ∷ ys) (append_nil xs)

pub append_assoc : (xs ys zs : List ℕ) → (xs ++ ys) ++ zs ≡ xs ++ (ys ++ zs)
append_assoc [] ys zs = refl
append_assoc (x ∷ xs) ys zs = ap (λ us. x ∷ us) (append_assoc xs ys zs)

pub bytes_of-append : (xs ys : List CdevMbo) → bytes_of (xs ++ ys) ≡ bytes_of xs ++ bytes_of ys
bytes_of-append [] ys = refl
bytes_of-append (x ∷ xs) ys =
    ap (λ us. x.bytes ++ us) (bytes_of-append xs ys)
    ∙ sym (append_assoc x.bytes (bytes_of xs) (bytes_of ys))

take-drop : (n : ℕ) (xs : List ℕ) → take n xs ++ drop n xs ≡ xs
take-drop zero xs = refl
take-drop (suc n) [] = refl
take-drop (suc n) (x ∷ xs) = ap (λ ys. x ∷ ys) (take-drop n xs)

drop-drop : (o n : ℕ) (xs : List ℕ) → drop n (drop o xs) ≡ drop (o + n) xs
drop-drop zero n xs = ap (λ k. drop k xs) (omega arith)
drop-drop (suc o) n [] = drop_empty n ∙ sym (drop_empty (suc o + n))
  where
    drop_empty : (k : ℕ) → drop k [] ≡ []
    drop_empty zero = refl
    drop_empty (suc k) = refl
drop-drop (suc o) n (x ∷ xs) =
    let e : suc o + n ≡ suc (o + n) = omega arith in
    drop-drop o n xs ∙ sym (ap (λ k. drop k (x ∷ xs)) e)

-- What is left from offset `o` on, after `n` bytes of it are taken.
pub split_at : (o n : ℕ) (xs : List ℕ) → drop o xs ≡ take n (drop o xs) ++ drop (o + n) xs
split_at o n xs = rw (sym (drop-drop o n xs)) (sym (take-drop n (drop o xs)))

pub drop-all : (n : ℕ) (xs : List ℕ) → length xs ≤ n → drop n xs ≡ []
drop-all zero [] h = refl
drop-all zero (x ∷ xs) h = absurd (omega (arith, h))
drop-all (suc n) [] h = refl
drop-all (suc n) (x ∷ xs) h = drop-all n xs (omega (arith, h))

pub length-take : (n : ℕ) (xs : List ℕ) → n ≤ length xs → length (take n xs) ≡ n
length-take zero xs h = refl
length-take (suc n) [] h = absurd (omega (arith, h))
length-take (suc n) (x ∷ xs) h = ap suc (length-take n xs (omega (arith, h)))
