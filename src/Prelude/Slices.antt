-- ===== src/Prelude/Slices.antt =====
-- Parts of a list, and reads of a list after a write.
use Prim.Native.Nat.{ℕ, zero, suc, ◌+◌, ◌-◌, ◌≤◌, min}
use mathlib.Core.Path.{◌≡◌, refl, sym, ap, ◌∙◌}
use mathlib.Core.List.{List, [], ◌∷◌, ◌++◌}
use mathlib.Core.Bool.{◌&&◌}
use native.Mathlib.Omega.{arith}
use esp32_fx.Prelude.Lists.{length, get_or, set, take, drop}
use esp32_fx.Prelude.Tests.{◌==◌, ltb, if◌then◌else◌}

module _ {ℓ} {A : Type ℓ} where
  pub drop_all : (n : ℕ) (xs : List A) → length xs ≤ n → drop n xs ≡ []
  drop_all zero [] h = refl
  drop_all zero (x ∷ xs) h = absurd (omega arith)
  drop_all (suc n) [] h = refl
  drop_all (suc n) (x ∷ xs) h = drop_all n xs (omega arith)

  pub take-nil : (n : ℕ) → take {A = A} n [] ≡ []
  take-nil zero = refl
  take-nil (suc n) = refl

  pub drop-nil : (n : ℕ) → drop {A = A} n [] ≡ []
  drop-nil zero = refl
  drop-nil (suc n) = refl

  pub drop-drop : (m n k : ℕ) (xs : List A) → n + m ≡ k → drop m (drop n xs) ≡ drop k xs
  drop-drop m zero k xs e = ap (λ i. drop i xs) (omega arith)
  drop-drop m (suc n) zero xs e = absurd (omega arith)
  drop-drop m (suc n) (suc k) [] e = drop-nil m
  drop-drop m (suc n) (suc k) (x ∷ xs) e = drop-drop m n k xs (omega arith)

  pub take-take : (m n k : ℕ) (xs : List A) → k ≡ min m n → take m (take n xs) ≡ take k xs
  take-take zero n zero xs e = refl
  take-take zero n (suc k) xs e = absurd (omega arith)
  take-take (suc m) zero zero xs e = refl
  take-take (suc m) zero (suc k) xs e = absurd (omega arith)
  take-take (suc m) (suc n) zero xs e = absurd (omega arith)
  take-take (suc m) (suc n) (suc k) [] e = refl
  take-take (suc m) (suc n) (suc k) (x ∷ xs) e = ap (◌∷◌ x) (take-take m n k xs (omega arith))

  -- A read of at most `cap` bytes from the part of a block between two offsets.
  pub take-drop-take :
      (cap c len k : ℕ) (xs : List A)
      → k ≡ min cap (len - c)
      → take cap (drop c (take len xs)) ≡ take k (drop c xs)
  take-drop-take cap zero len k xs e = take-take cap len k xs (omega arith)
  take-drop-take cap (suc c) zero zero xs e = take-nil cap
  take-drop-take cap (suc c) zero (suc k) xs e = absurd (omega arith)
  take-drop-take cap (suc c) (suc len) k [] e = take-nil cap ∙ sym (take-nil k)
  take-drop-take cap (suc c) (suc len) k (x ∷ xs) e = take-drop-take cap c len k xs (omega arith)

  -- Two offsets at or beyond the end of a part leave nothing of it.
  pub drop-eq_of_end :
      (i j : ℕ) (xs : List A) → length xs ≤ i → length xs ≤ j → drop i xs ≡ drop j xs
  drop-eq_of_end i j xs h k = drop_all i xs h ∙ sym (drop_all j xs k)

  pub get_or-set :
      (xs : List A) (i j : ℕ) (v d : A)
      → get_or (set xs i v) j d ≡ (if i == j && ltb j (length xs) then v else get_or xs j d)
  get_or-set [] i j v d = ground arith
  get_or-set (x ∷ xs) zero zero v d = ground arith
  get_or-set (x ∷ xs) zero (suc j) v d = ground arith
  get_or-set (x ∷ xs) (suc i) zero v d = ground arith
  get_or-set (x ∷ xs) (suc i) (suc j) v d = ground (arith, get_or-set xs i j v d)

  pub length-set : (xs : List A) (i : ℕ) (v : A) → length (set xs i v) ≡ length xs
  length-set [] i v = refl
  length-set (x ∷ xs) zero v = refl
  length-set (x ∷ xs) (suc i) v = ap suc (length-set xs i v)

  pub take-append : (k : ℕ) (xs ys : List A) → k ≤ length xs → take k (xs ++ ys) ≡ take k xs
  take-append zero xs ys h = refl
  take-append (suc k) [] ys h = absurd (omega arith)
  take-append (suc k) (x ∷ xs) ys h = ap (◌∷◌ x) (take-append k xs ys (omega arith))
