-- ===== src/Prelude/Lists.antt =====
-- Lists measured by native numbers, under the library's names.
use Prim.Native.Nat.{ℕ, zero, suc, ◌+◌, ◌-◌, ◌≤◌, min}
use native.Mathlib.Omega.{arith}
use mathlib.Core.Path.{◌≡◌, refl, ap}
use mathlib.Core.List.{List, [], ◌∷◌, ◌++◌}

module _ {ℓ} {A : Type ℓ} where
  abbrev pub drop : ℕ → List A → List A
  drop zero us = us
  drop (suc n) [] = []
  drop (suc n) (u ∷ us) = drop n us

  abbrev pub replicate : ℕ → A → List A
  replicate zero a = []
  replicate (suc n) a = a ∷ replicate n a

  abbrev pub take : ℕ → List A → List A
  take zero us = []
  take (suc n) [] = []
  take (suc n) (u ∷ us) = u ∷ take n us

  abbrev pub length : List A → ℕ
  length [] = 0
  length (u ∷ us) = suc (length us)

  pub length-drop : (n : ℕ) (us : List A) → length (drop n us) ≡ length us - n
  length-drop zero us = omega arith
  length-drop (suc n) [] = omega arith
  length-drop (suc n) (u ∷ us) = omega (arith, length-drop n us)

  pub eq-nil_of_length : (us : List A) → length us ≡ 0 → us ≡ []
  eq-nil_of_length [] e = refl
  eq-nil_of_length (u ∷ us) e = absurd (omega arith)

  pub length-replicate : (n : ℕ) (a : A) → length (replicate n a) ≡ n
  length-replicate zero a = refl
  length-replicate (suc n) a = ap suc (length-replicate n a)

  pub take-nil : (n : ℕ) → take n [] ≡ []
  take-nil zero = refl
  take-nil (suc n) = refl

  pub length-append : (us vs : List A) → length (us ++ vs) ≡ length us + length vs
  length-append [] vs = omega arith
  length-append (u ∷ us) vs = omega (arith, length-append us vs)

  pub take-append-drop : (n : ℕ) (us : List A) → take n us ++ drop n us ≡ us
  take-append-drop zero us = refl
  take-append-drop (suc n) [] = refl
  take-append-drop (suc n) (u ∷ us) = rw (take-append-drop n us)

  pub take-append :
      (n : ℕ) (us vs : List A) → take n (us ++ vs) ≡ take n us ++ take (n - length us) vs
  take-append zero us vs = let e : 0 - length us ≡ 0 = omega arith in rw e refl
  take-append (suc n) [] vs = let e : suc n - 0 ≡ suc n = omega arith in rw e refl
  take-append (suc n) (u ∷ us) vs =
      let e : suc n - suc (length us) ≡ n - length us = omega arith in
      rw e (ap (◌∷◌ u) (take-append n us vs))

  pub length-take : (n : ℕ) (us : List A) → length (take n us) ≡ min n (length us)
  length-take zero us = omega arith
  length-take (suc n) [] = omega arith
  length-take (suc n) (u ∷ us) = omega (arith, length-take n us)

  pub take_of_length-le : (n : ℕ) (us : List A) → length us ≤ n → take n us ≡ us
  take_of_length-le zero [] h = refl
  take_of_length-le zero (u ∷ us) h = absurd (omega arith)
  take_of_length-le (suc n) [] h = refl
  take_of_length-le (suc n) (u ∷ us) h = ap (◌∷◌ u) (take_of_length-le n us (omega arith))

  pub drop-append_self : (us vs : List A) → drop (length us) (us ++ vs) ≡ vs
  drop-append_self [] vs = refl
  drop-append_self (u ∷ us) vs = drop-append_self us vs

  pub take_all : (us : List A) → take (length us) us ≡ us
  take_all [] = refl
  take_all (u ∷ us) = ap (◌∷◌ u) (take_all us)

  -- A prefix that covers the first list splits behind it.
  pub take-append_ge :
      (n : ℕ) (us vs : List A) → length us ≤ n → take n (us ++ vs) ≡ us ++ take (n - length us) vs
  take-append_ge n [] vs h = let e : n - 0 ≡ n = omega arith in rw e refl
  take-append_ge zero (u ∷ us) vs h = absurd (omega arith)
  take-append_ge (suc n) (u ∷ us) vs h =
      let e : suc n - suc (length us) ≡ n - length us = omega arith in
      rw e (ap (◌∷◌ u) (take-append_ge n us vs (omega arith)))

  pub take-append_le : (n : ℕ) (us vs : List A) → n ≤ length us → take n (us ++ vs) ≡ take n us
  take-append_le zero us vs h = refl
  take-append_le (suc n) [] vs h = absurd (omega arith)
  take-append_le (suc n) (u ∷ us) vs h = ap (◌∷◌ u) (take-append_le n us vs (omega arith))

  pub take-take : (n m : ℕ) (us : List A) → n ≤ m → take n (take m us) ≡ take n us
  take-take zero m us h = refl
  take-take (suc n) zero us h = absurd (omega arith)
  take-take (suc n) (suc m) [] h = refl
  take-take (suc n) (suc m) (u ∷ us) h = ap (◌∷◌ u) (take-take n m us (omega arith))
