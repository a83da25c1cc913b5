-- ===== src/Session/Lengths/Decimal.antt =====
-- core/src/session/utils.rs: which texts are read as a content length, and as which number.
use glaive.Prelude.{
  ℕ, ◌+◌, ◌-◌, ◌*◌, ◌≤◌, ◌<◌, ◌^◌, ◌≡◌, ◌↔◌, refl, Option, none, some, Bool, true, false, ◌&&◌, [],
  ◌∷◌, leb, ◌==◌, if◌then◌else◌, arith, Bool-cases, inl, inr,
}
use glaive.Session.Offset.{Bytes}
use glaive.Session.Lengths.{
  is_digit, parse_digits, parse_unsigned, parse_i64, not_negative, length_of,
  get_content_length_value, signed,
}
use glaive.Text.{Text}

-- The number that the digits stand for, behind a number that came before them.
abbrev pub value_from : ℕ → Text → ℕ
value_from n [] = n
value_from n (c ∷ t) = value_from (n * 10 + (c - 48)) t

abbrev pub all_digits : Text → Bool
all_digits [] = true
all_digits (c ∷ t) = is_digit c && all_digits t

value_from_grows : (n : ℕ) (t : Text) → n ≤ value_from n t
value_from_grows n [] = omega arith
value_from_grows n (c ∷ t) = omega (arith, value_from_grows (n * 10 + (c - 48)) t)

-- The digits are read without an overflow exactly when the number is not too large.
pub parse_digits-value_from :
    (most n : ℕ) (t : Text)
    → n ≤ most
    → parse_digits most n t
      ≡ (if all_digits t && leb (value_from n t) most then some (value_from n t) else none)
unfolding parse_digits
parse_digits-value_from most n [] h = ground arith
parse_digits-value_from most n (c ∷ t) h = elim (Bool-cases (leb (n * 10 + (c - 48)) most)) [
  | inl fits ↦ ground (arith, parse_digits-value_from most (n * 10 + (c - 48)) t (ground arith))
  | inr over ↦ ground (arith, value_from_grows (n * 10 + (c - 48)) t)
]

-- The grammar that is accepted: digits, one at least, with a plus sign or without; or a minus sign
-- and a zero.
pub data Numeral : Text → ℕ → Type 0 where
  plain : (c : ℕ) (t : Text) → all_digits (c ∷ t) ≡ true → Numeral (c ∷ t) (value_from 0 (c ∷ t))
  plus :
      (c : ℕ) (t : Text) → all_digits (c ∷ t) ≡ true → Numeral (43 ∷ (c ∷ t)) (value_from 0 (c ∷ t))
  minus_zero :
      (c : ℕ) (t : Text)
      → all_digits (c ∷ t) ≡ true
      → value_from 0 (c ∷ t) ≡ 0
      → Numeral (45 ∷ (c ∷ t)) 0

digit_apart : (c : ℕ) → is_digit c ≡ true → ((c == 43) ≡ false) × ((c == 45) ≡ false)
digit_apart c e = (ground arith, ground arith)

-- A numeral below 2 ^ 63 is read as its number.
pub length_of-Numeral : (t : Text) (n : ℕ) → Numeral t n → n < 2 ^ 63 → length_of (some t) ≡ some n
unfolding parse_i64 parse_unsigned
length_of-Numeral t n (plain c s d) h =
    let a = digit_apart c (ground (arith, d)) in
    rw a.0 (
      rw a.1
        (rw (parse_digits-value_from (2 ^ 63 - 1) 0 (c ∷ s) (omega arith)) (ground (arith, d))))
length_of-Numeral t n (plus c s d) h =
    rw (parse_digits-value_from (2 ^ 63 - 1) 0 (c ∷ s) (omega arith)) (ground (arith, d))
length_of-Numeral t n (minus_zero c s d z) h =
    rw (parse_digits-value_from (2 ^ 63) 0 (c ∷ s) (omega arith)) (ground (arith, d, z))

-- A run of digits that is read, and what it is read as.
record Reads (t : Text) (n : ℕ) : Type 0 where
  digits : all_digits t ≡ true
  number : n ≡ value_from 0 t

parse_digits-Reads :
    (most n : ℕ) (t : Text) → parse_digits most 0 t ≡ some n → Reads t n × (n ≤ most)
parse_digits-Reads most n t e =
    let whole = parse_digits-value_from most 0 t (omega arith) in
    elim (Bool-cases (all_digits t && leb (value_from 0 t) most)) [
      | inl good ↦
          let same : n ≡ value_from 0 t = ground (arith, whole, e, good) in
          (record { digits = ground (arith, good); number = same }, ground (arith, good))
      | inr bad ↦ absurd (ground (arith, whole, e, bad))
    ]

signed-some :
    (negative : Bool) (o : Option ℕ) (n : ℕ)
    → not_negative (signed negative o) ≡ some n
    → (o ≡ some n) × (negative ≡ true → n ≡ 0)
signed-some negative none n e = absurd cc
signed-some false (some m) n e = (ground (arith, e), λ h. absurd cc)
signed-some true (some m) n e = (ground (arith, e), λ h. ground (arith, e))

unsigned-Reads :
    (negative : Bool) (most n : ℕ) (t : Text)
    → not_negative (parse_unsigned negative most t) ≡ some n
    → (c : ℕ) × ((s : Text) × ((t ≡ c ∷ s)
          × ((Reads (c ∷ s) n × (n ≤ most)) × (negative ≡ true → n ≡ 0))))
unfolding parse_unsigned
unsigned-Reads negative most n [] e = absurd cc
unsigned-Reads negative most n (c ∷ s) e =
    let one = signed-some negative (parse_digits most 0 (c ∷ s)) n e in
    (c, (s, (refl, (parse_digits-Reads most n (c ∷ s) one.0, one.1))))

plain-Numeral : (c n : ℕ) (s : Text) → Reads (c ∷ s) n → Numeral (c ∷ s) n
plain-Numeral c n s r = rw r.number (plain c s r.digits)

plus-Numeral : (c n : ℕ) (s : Text) → Reads (c ∷ s) n → Numeral (43 ∷ (c ∷ s)) n
plus-Numeral c n s r = rw r.number (plus c s r.digits)

minus-Numeral : (c n : ℕ) (s : Text) → Reads (c ∷ s) n → n ≡ 0 → Numeral (45 ∷ (c ∷ s)) n
minus-Numeral c n s r z = rw z (minus_zero c s r.digits (ground (arith, r.number, z)))

-- Only such numerals are.
pub Numeral-length_of :
    (t : Text) (n : ℕ) → length_of (some t) ≡ some n → Numeral t n × (n < 2 ^ 63)
unfolding parse_i64
Numeral-length_of [] n e = absurd cc
Numeral-length_of (c ∷ t) n e = elim (Bool-cases (c == 43)) [
  | inl p ↦
      let (d, (s, (is, ((r, le), z)))) =
        unsigned-Reads false (2 ^ 63 - 1) n t (ground (arith, e, p)) in
      let is43 : c ≡ 43 = ground (arith, p) in rw is43 (rw is (plus-Numeral d n s r, omega arith))
  | inr p ↦ elim (Bool-cases (c == 45)) [
    | inl m ↦
        let (d, (s, (is, ((r, le), z)))) =
          unsigned-Reads true (2 ^ 63) n t (ground (arith, e, p, m)) in
        let is45 : c ≡ 45 = ground (arith, m) in
        rw is45 (rw is (minus-Numeral d n s r (z refl), omega (arith, z refl)))
    | inr m ↦
        let (d, (s, (is, ((r, le), z)))) =
          unsigned-Reads false (2 ^ 63 - 1) n (c ∷ t) (ground (arith, e, p, m)) in
        rw is (plain-Numeral d n s r, omega arith)
  ]
]

-- The content length is a number exactly when the header is a text that is a decimal numeral below
-- 2 ^ 63, with a plus sign or without, or a zero with a minus sign; and it is that number.
pub get_content_length_value-Numeral :
    (utf8 : Bytes → Option Text) (value : Bytes) (t : Text) (n : ℕ)
    → utf8 value ≡ some t
    → (get_content_length_value utf8 (some value) ≡ some n) ↔ (Numeral t n × (n < 2 ^ 63))
unfolding get_content_length_value
get_content_length_value-Numeral utf8 value t n e =
    rw e (λ h. Numeral-length_of t n h, λ (num, small). length_of-Numeral t n num small)
