-- ===== src/Session/Writer/Hex.antt =====
-- Rust's `format!("{:X}", n)`: a number in upper-case hexadecimal digits, and how they are read.
use glaive.Prelude.{
  ℕ, zero, suc, ◌+◌, ◌-◌, ◌*◌, ◌/◌, ◌%◌, ◌^◌, ◌≤◌, ◌<◌, ◌≡◌, inl, inr, ◌∙◌, ap, Option, none, some,
  [], ◌∷◌, arith, ltb, leb, ◌&&◌, if◌then◌else◌, usize_mod, Bool-cases,
}
use native.Mathlib.Nat.{pow-suc}
use glaive.Session.Offset.{Bytes}

unfoldable pub hex_digit : ℕ → ℕ
hex_digit d = if ltb d 10 then b'0' + d else b'A' + (d - 10)

-- The digits before `rest`; 16 rounds are enough for a 64-bit number.
unfoldable pub hex_before : ℕ → ℕ → Bytes → Bytes
hex_before zero n rest = rest
hex_before (suc rounds) n rest =
    let more = hex_before rounds (n / 16) (hex_digit (n % 16) ∷ rest) in
    if ltb n 16 then hex_digit n ∷ rest else more

unfoldable pub hex : ℕ → Bytes
unfolding hex_before hex_digit
hex n = hex_before 16 n []

-- Reading, by the meaning of the digits.
unfoldable pub hex_value : ℕ → Option ℕ
hex_value c =
    if leb b'0' c && leb c b'9'
    then some (c - b'0')
    else if leb b'A' c && leb c b'F'
    then some (c - b'A' + 10)
    else none

unfoldable pub hex_number : ℕ → Bytes → Option ℕ
hex_number acc [] = some acc
hex_number acc (c ∷ cs) = elim (hex_value c) [ none ↦ none | some d ↦ hex_number (acc * 16 + d) cs ]

hex_value-hex_digit : (d : ℕ) → d < 16 → hex_value (hex_digit d) ≡ some d
unfolding hex_value hex_digit
hex_value-hex_digit d h = ground arith

number_shift :
    (n d : ℕ) (rest : Bytes)
    → d < 16
    → hex_number n (hex_digit d ∷ rest) ≡ hex_number (n * 16 + d) rest
unfolding hex_number
number_shift n d rest h = rw (hex_value-hex_digit d h, hex_number)

number_digit :
    (d : ℕ) (rest : Bytes) → d < 16 → hex_number 0 (hex_digit d ∷ rest) ≡ hex_number d rest
number_digit d rest h = number_shift 0 d rest h ∙ ap (λ k. hex_number k rest) (omega arith)

more_rounds : (rounds n : ℕ) → n < 16 ^ suc rounds → 16 ≤ n → 0 < rounds
more_rounds zero n h big = absurd (omega arith)
more_rounds (suc rounds) n h big = omega arith

-- The number that digits stand for when `rest` stands behind them.
hex_number-hex_before :
    (rounds n : ℕ) (rest : Bytes)
    → n < 16 ^ rounds
    → 0 < rounds
    → hex_number 0 (hex_before rounds n rest) ≡ hex_number n rest
unfolding hex_before hex_number
hex_number-hex_before zero n rest h pos = absurd (omega arith)
hex_number-hex_before (suc rounds) n rest h pos = elim (Bool-cases (ltb n 16)) [
  | inl e ↦ rw e (number_digit n rest (ground arith))
  | inr e ↦ rw e (
      hex_number-hex_before rounds (n / 16) (hex_digit (n % 16) ∷ rest)
        (omega (arith, pow-suc 16 rounds)) (more_rounds rounds n h (ground arith))
      ∙ number_shift (n / 16) (n % 16) rest (omega arith)
      ∙ ap (λ k. hex_number k rest) (omega arith))
]

-- What the writer prints as a chunk's size reads back as that size.
pub hex_number-hex : (n : ℕ) → n < usize_mod → hex_number 0 (hex n) ≡ some n
unfolding hex hex_number
hex_number-hex n h = hex_number-hex_before 16 n [] (omega arith) (omega arith)
