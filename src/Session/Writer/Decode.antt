-- ===== src/Session/Writer/Decode.antt =====
-- The chunked coding as its reader takes it apart (RFC 9112, section 7.1, without extensions and
-- trailers): the specification that the writer's chunks are held against.
use glaive.Prelude.{
  ℕ, zero, suc, ◌/◌, ◌%◌, ◌<◌, ◌≡◌, refl, ◌∙◌, ap, false, Option, none, some, List, [], ◌∷◌, ◌++◌,
  arith, usize_mod, ltb, leb, ◌==◌, ◌&&◌, take, drop, length, if◌then◌else◌, Bool-cases, inl, inr,
  append_assoc, length-append, take-append_le, take_all, drop-append_self,
}
use mathlib.Core.List.{flatten}
use glaive.Session.Offset.{Bytes}
use glaive.Session.Writer.{crlf, last_chunk}
use glaive.Session.Writer.Hex.{hex, hex_digit, hex_before, hex_value, hex_number, hex_number-hex}
use glaive.Session.Writer.Writes.{encode_chunk}
use glaive.Session.Writer.Chunks.{encode}

infixl 5 ◌>>=◌
abbrev ◌>>=◌ {ℓ κ} : {A : Type ℓ} {B : Type κ} → Option A → (A → Option B) → Option B
none >>= f = none
some a >>= f = f a

-- A line, and what is behind its end.
unfoldable pub split_line : Bytes → Option (Bytes × Bytes)
split_line [] = none
split_line (c ∷ []) = none
split_line (c ∷ d ∷ rest) =
    if c == b'\r' && d == b'\n'
    then some ([], rest)
    else (split_line (d ∷ rest) >>= λ t. some (c ∷ t.0, t.1))

unfoldable pub strip_crlf : Bytes → Option Bytes
strip_crlf (c ∷ d ∷ rest) = if c == b'\r' && d == b'\n' then some rest else none
strip_crlf _ = none

-- The body, and what is behind it; a round of fuel for each chunk.
unfoldable pub decode : ℕ → Bytes → Option (Bytes × Bytes)
decode zero wire = none
decode (suc fuel) wire = do
  (line, rest) ← split_line wire
  size ← hex_number 0 line
  let more = do
    behind ← strip_crlf (drop size rest)
    (body, end) ← decode fuel behind
    some (take size rest ++ body, end)
  let last = do behind ← strip_crlf rest; some ([], behind)
  if size == 0 then last else if leb size (length rest) then more else none

-- No digit is the start of an end of line.
abbrev NoCr : Bytes → Type 0
NoCr [] = Unit
NoCr (c ∷ cs) = ((c == b'\r') ≡ false) × NoCr cs

hex_digit-NoCr : (d : ℕ) → d < 16 → (hex_digit d == b'\r') ≡ false
unfolding hex_digit
hex_digit-NoCr d h = ground arith

hex_before-NoCr : (rounds n : ℕ) (rest : Bytes) → NoCr rest → NoCr (hex_before rounds n rest)
unfolding hex_before
hex_before-NoCr zero n rest h = h
hex_before-NoCr (suc rounds) n rest h = elim (Bool-cases (ltb n 16)) [
  | inl e ↦ rw e (hex_digit-NoCr n (ground arith), h)
  | inr e ↦ rw e (hex_before-NoCr rounds (n / 16) _ (hex_digit-NoCr (n % 16) (omega arith), h))
]

split_line_lem :
    (line rest : Bytes) → NoCr line → split_line (line ++ (crlf ++ rest)) ≡ some (line, rest)
unfolding split_line
split_line_lem [] rest h = refl
split_line_lem (c ∷ []) rest h = ground arith
split_line_lem (c ∷ d ∷ line) rest h = rw (h.0, split_line_lem (d ∷ line) rest h.1)

hex-NoCr : (n : ℕ) → NoCr (hex n)
unfolding hex
hex-NoCr n = hex_before-NoCr 16 n [] tt

wire_line :
    (piece wire : Bytes)
    → encode_chunk piece ++ wire ≡ hex (length piece) ++ (crlf ++ (piece ++ (crlf ++ wire)))
unfolding encode_chunk
wire_line piece wire = simp append_assoc

decode-chunk :
    (fuel : ℕ) (piece wire : Bytes)
    → 0 < length piece
    → length piece < usize_mod
    → decode (suc fuel) (encode_chunk piece ++ wire)
      ≡ (decode fuel wire >>= λ t. some (piece ++ t.0, t.1))
unfolding decode strip_crlf
decode-chunk fuel piece wire some_data small =
    rw
      (
        wire_line piece wire,
        split_line_lem (hex (length piece)) (piece ++ (crlf ++ wire)) (hex-NoCr (length piece)),
        hex_number-hex (length piece) small,
        drop-append_self piece (crlf ++ wire),
        take-append_le (length piece) piece (crlf ++ wire) (omega arith),
        take_all piece,
      )
      (ground (arith, length-append piece (crlf ++ wire)))

decode-last : (fuel : ℕ) (wire : Bytes) → decode (suc fuel) (last_chunk ++ wire) ≡ some ([], wire)
unfolding decode split_line hex_number hex_value strip_crlf
decode-last fuel wire = refl

-- Pieces that are not empty.
abbrev pub IsSent : List Bytes → Type 0
IsSent [] = Unit
IsSent (piece ∷ pieces) = (0 < length piece) × (length piece < usize_mod) × IsSent pieces

-- What the chunks of a body and the last chunk decode to is the body, with all that stands behind
-- it left: if no piece was empty.
pub decode-encode :
    (pieces : List Bytes) (rest : Bytes)
    → IsSent pieces
    → decode (suc (length pieces)) (encode pieces ++ (last_chunk ++ rest))
      ≡ some (flatten pieces, rest)
unfolding flatten
decode-encode [] rest sent = decode-last 0 rest
decode-encode (piece ∷ pieces) rest sent =
    ap (decode (suc (suc (length pieces))))
      (append_assoc (encode_chunk piece) (encode pieces) (last_chunk ++ rest))
    ∙ rw
        (
          decode-chunk (suc (length pieces)) piece (encode pieces ++ (last_chunk ++ rest)) sent.0
              sent.1,
          decode-encode pieces rest sent.2,
        )
        refl

-- An empty piece ends the body for its reader: what was written behind it is not read as body.
pub decode-encode_empty :
    (pieces more : List Bytes) (rest : Bytes)
    → IsSent pieces
    → decode (suc (length pieces)) (encode (pieces ++ [] ∷ more) ++ rest)
      ≡ some (flatten pieces, encode more ++ rest)
unfolding flatten encode_chunk hex
decode-encode_empty [] more rest sent = decode-last 0 (encode more ++ rest)
decode-encode_empty (piece ∷ pieces) more rest sent =
    ap (decode (suc (suc (length pieces))))
      (append_assoc (encode_chunk piece) (encode (pieces ++ [] ∷ more)) rest)
    ∙ rw
        (
          decode-chunk (suc (length pieces)) piece (encode (pieces ++ [] ∷ more) ++ rest) sent.0
              sent.1,
          decode-encode_empty pieces more rest sent.2,
        )
        refl
