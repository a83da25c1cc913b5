-- ===== src/Prelude/Maps.antt =====
-- Rust's `HashMap` with numbers for keys: an association list, in an order that nothing relies on.
use Prim.Native.Nat.{ℕ}
use mathlib.Core.Path.{◌≡◌, refl, sym, ap, ◌∙◌}
use mathlib.Core.Logic.{◌≢◌, inl, inr}
use mathlib.Core.Bool.{Bool, true, false}
use mathlib.Core.List.{List, [], ◌∷◌, ◌++◌, map}
use mathlib.Core.Option.{Option, none, some}
use native.Mathlib.Omega.{arith}
use glaive.Prelude.Tests.{◌==◌, if◌then◌else◌, Bool-cases, Option-cases}

abbrev pub has : ℕ → List ℕ → Bool
has k [] = false
has k (j ∷ keys) = if k == j then true else has k keys

module _ {V : Type 0} where
  abbrev pub find : ℕ → List (ℕ × V) → Option V
  find k [] = none
  find k ((j, v) ∷ m) = if k == j then some v else find k m

  abbrev pub remove : ℕ → List (ℕ × V) → List (ℕ × V)
  remove k [] = []
  remove k ((j, v) ∷ m) = if k == j then m else (j, v) ∷ remove k m

  abbrev pub insert : ℕ → V → List (ℕ × V) → List (ℕ × V)
  insert k v m = (k, v) ∷ remove k m

  abbrev pub or_else : Option V → Option V → Option V
  or_else none o = o
  or_else (some v) o = some v

  -- No key twice.
  abbrev pub Distinct : List (ℕ × V) → Type 0
  Distinct [] = Unit {0}
  Distinct ((k, v) ∷ m) = (find k m ≡ none) × Distinct m

  pub find-append : (k : ℕ) (m n : List (ℕ × V)) → find k (m ++ n) ≡ or_else (find k m) (find k n)
  find-append k [] n = refl
  find-append k ((j, v) ∷ m) n = elim (Bool-cases (k == j)) [
    | inl e ↦ rw e refl
    | inr e ↦ rw e (find-append k m n)
  ]

  pub find-remove_ne : (k j : ℕ) (m : List (ℕ × V)) → k ≢ j → find k (remove j m) ≡ find k m
  find-remove_ne k j [] ne = refl
  find-remove_ne k j ((i, v) ∷ m) ne = elim (Bool-cases (j == i)) [
    | inl e ↦ ground (arith, ne)
    | inr e ↦ ground (arith, find-remove_ne k j m ne)
  ]

  pub find-remove_self : (k : ℕ) (m : List (ℕ × V)) → Distinct m → find k (remove k m) ≡ none
  find-remove_self k [] d = refl
  find-remove_self k ((i, v) ∷ m) (absent, d) = elim (Bool-cases (k == i)) [
    | inl e ↦ ground (arith, absent)
    | inr e ↦ ground (arith, find-remove_self k m d)
  ]

  -- Where a key is.
  pub record Split (k : ℕ) (m : List (ℕ × V)) (v : V) : Type 0 where
    pub before : List (ℕ × V)
    pub after : List (ℕ × V)
    pub split : m ≡ before ++ ((k, v) ∷ after)
    pub absent_before : find k before ≡ none

  pub find-Split : (k : ℕ) (m : List (ℕ × V)) (v : V) → find k m ≡ some v → Split k m v
  find-Split k [] v e = absurd cc
  find-Split k ((j, w) ∷ m) v e = elim (Bool-cases (k == j)) [
    | inl t ↦ record { before = []; after = m; split = ground (arith, e); absent_before = refl }
    | inr t ↦
        let rest = find-Split k m v (ground (arith, e)) in
        record {
          before = (j, w) ∷ rest.before;
          after = rest.after;
          split = ap (◌∷◌ (j, w)) rest.split;
          absent_before = rw t rest.absent_before;
        }
  ]

  pub Distinct-append_right : (m n : List (ℕ × V)) → Distinct (m ++ n) → Distinct n
  Distinct-append_right [] n d = d
  Distinct-append_right ((j, v) ∷ m) n (absent, d) = Distinct-append_right m n d

  pub or_else-none : (a b : Option V) → or_else a b ≡ none → b ≡ none
  or_else-none none b e = e
  or_else-none (some v) b e = absurd cc

  -- A key of the first list is not in the second.
  pub Distinct-apart :
      (k : ℕ) (m n : List (ℕ × V)) (v : V) → Distinct (m ++ n) → find k m ≡ some v → find k n ≡ none
  Distinct-apart k [] n v d e = absurd cc
  Distinct-apart k ((j, w) ∷ m) n v (absent, d) e = elim (Bool-cases (k == j)) [
    | inl t ↦
        let same : find j n ≡ none = or_else-none _ _ (sym (find-append j m n) ∙ absent) in
        ground (arith, same)
    | inr t ↦ Distinct-apart k m n v d (ground (arith, e))
  ]

  -- Which half comes first does not matter.
  pub find-swap :
      (k : ℕ) (m n : List (ℕ × V)) → Distinct (m ++ n) → find k (n ++ m) ≡ find k (m ++ n)
  find-swap k m n d = elim (Option-cases (find k m)) [
    | inl e ↦ elim (Option-cases (find k n)) [
      | inl f ↦ rw (find-append k n m, find-append k m n, e, f) refl
      | inr (v, f) ↦ rw (find-append k n m, find-append k m n, e, f) refl
    ]
    | inr (v, e) ↦ rw (find-append k n m, find-append k m n, e, Distinct-apart k m n v d e) refl
  ]

  -- Taking a key out leaves the others.
  pub find-without :
      (k j : ℕ) (m n : List (ℕ × V)) (v : V) → k ≢ j → find k (m ++ ((j, v) ∷ n)) ≡ find k (m ++ n)
  find-without k j [] n v ne = ground (arith, ne)
  find-without k j ((i, w) ∷ m) n v ne = elim (Bool-cases (k == i)) [
    | inl t ↦ rw t refl
    | inr t ↦ rw t (find-without k j m n v ne)
  ]

  pub Distinct-without :
      (j : ℕ) (m n : List (ℕ × V)) (v : V)
      → Distinct (m ++ ((j, v) ∷ n))
      → (find j (m ++ n) ≡ none) × Distinct (m ++ n)
  Distinct-without j [] n v (absent, d) = (absent, d)
  Distinct-without j ((i, w) ∷ m) n v (absent, d) = elim (Bool-cases (j == i)) [
    | inl t ↦
        let clash : find i ((j, v) ∷ n) ≡ none =
          or_else-none _ _ (sym (find-append i m ((j, v) ∷ n)) ∙ absent) in
        absurd (ground (arith, clash))
    | inr t ↦
        let ne : i ≢ j = ground arith in
        let rest = Distinct-without j m n v d in
        (rw t rest.0, (sym (find-without i j m n v ne) ∙ absent, rest.1))
  ]

  pub Distinct-append_left : (m n : List (ℕ × V)) → Distinct (m ++ n) → Distinct m
  Distinct-append_left [] n d = tt
  Distinct-append_left ((j, v) ∷ m) n (absent, d) = elim (Option-cases (find j m)) [
    | inl e ↦ (e, Distinct-append_left m n d)
    | inr (w, e) ↦ absurd (ground (arith, find-append j m n, e, absent))
  ]

  pub find_here :
      (k : ℕ) (m n : List (ℕ × V)) (v : V) → find k m ≡ none → find k (m ++ ((k, v) ∷ n)) ≡ some v
  find_here k [] n v e = ground arith
  find_here k ((j, w) ∷ m) n v e = elim (Bool-cases (k == j)) [
    | inl t ↦ ground (arith, e)
    | inr t ↦ rw t (find_here k m n v (ground (arith, e)))
  ]

  pub remove_absent : (k : ℕ) (m : List (ℕ × V)) → find k m ≡ none → remove k m ≡ m
  remove_absent k [] e = refl
  remove_absent k ((j, w) ∷ m) e = ground (arith, remove_absent k m (ground (arith, e)), e)

  pub Distinct-snoc :
      (j : ℕ) (v : V) (m : List (ℕ × V))
      → Distinct m
      → find j m ≡ none
      → Distinct (m ++ ((j, v) ∷ []))
  Distinct-snoc j v [] d e = (refl, tt)
  Distinct-snoc j v ((i, w) ∷ m) (absent, d) e =
      let ne : i ≢ j = ground (arith, e) in
      (
        find-without i j m [] v ne ∙ (find-append i m [] ∙ rw absent refl),
        Distinct-snoc j v m d (ground (arith, e)),
      )

  pub find-append_left : (k : ℕ) (m n : List (ℕ × V)) → find k (m ++ n) ≡ none → find k m ≡ none
  find-append_left k m n e = elim (Option-cases (find k m)) [
    | inl absent ↦ absent
    | inr (v, f) ↦ absurd (ground (arith, find-append k m n, e, f))
  ]

  -- A key that is among the keys is found.
  pub find-has :
      (k : ℕ) (m : List (ℕ × V)) → has k (map (λ e. e.0) m) ≡ true → (v : V) × (find k m ≡ some v)
  find-has k [] e = absurd cc
  find-has k ((j, w) ∷ m) e = elim (Bool-cases (k == j)) [
    | inl t ↦ (w, rw t refl)
    | inr t ↦ let rest = find-has k m (ground (arith, e)) in (rest.0, rw t rest.1)
  ]
