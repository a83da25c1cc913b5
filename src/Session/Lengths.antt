-- ===== src/Session/Lengths.antt =====
-- core/src/session/utils.rs: the tests of a header's value, and the length of a body.
pub mod Decimal
use glaive.Prelude.{
  ℕ, ◌+◌, ◌-◌, ◌*◌, ◌^◌, Option, none, some, Bool, true, false, ◌&&◌, List, [], ◌∷◌, leb, ◌==◌,
  if◌then◌else◌,
}
use glaive.Session.Offset.{Bytes}
use glaive.Session.Http.{Http, Version, is_http11}
use glaive.Session.Headers.Request
use glaive.Session.Headers.Request.{RequestHeader}
use glaive.Session.Headers.Response.{ResponseHeader}
use glaive.Session.Keepalive.{eq_ignore_case}
use glaive.Text.{Text, text}

unfoldable pub is_header_value_chunk_encoding : Option Bytes → Bool
is_header_value_chunk_encoding (some value) = eq_ignore_case value (text "chunked")
is_header_value_chunk_encoding none = false

-- `i64`: its sign and its magnitude.
pub record Signed : Type 0 where
  pub negative : Bool
  pub magnitude : ℕ

abbrev pub is_digit : ℕ → Bool
is_digit c = leb 48 c && leb c 57

-- The digits, most significant first, up to a largest magnitude.
unfoldable pub parse_digits : ℕ → ℕ → Text → Option ℕ
parse_digits most n [] = some n
parse_digits most n (c ∷ t) =
    let next = n * 10 + (c - 48) in
    let rest = parse_digits most next t in if is_digit c && leb next most then rest else none

abbrev pub signed : Bool → Option ℕ → Option Signed
signed negative none = none
signed negative (some magnitude) = some (record { negative = negative; magnitude = magnitude })

-- `str::parse::<i64>`: a sign is allowed, and a digit is needed.
unfoldable pub parse_unsigned : Bool → ℕ → Text → Option Signed
unfolding parse_digits
parse_unsigned negative most [] = none
parse_unsigned negative most (c ∷ t) = signed negative (parse_digits most 0 (c ∷ t))

unfoldable pub parse_i64 : Text → Option Signed
unfolding parse_unsigned
parse_i64 [] = none
parse_i64 (c ∷ t) =
    if c == 43
    then parse_unsigned false (2 ^ 63 - 1) t
    else if c == 45
    then parse_unsigned true (2 ^ 63) t
    else parse_unsigned false (2 ^ 63 - 1) (c ∷ t)

abbrev pub not_negative : Option Signed → Option ℕ
not_negative none = none
not_negative (some n) =
    if n.negative then (if n.magnitude == 0 then some 0 else none) else some n.magnitude

abbrev pub length_of : Option Text → Option ℕ
length_of none = none
length_of (some t) = not_negative (parse_i64 t)

-- `from_utf8`.
module _ (utf8 : Bytes → Option Text) where
  unfoldable pub get_content_length_value : Option Bytes → Option ℕ
  unfolding parse_i64
  get_content_length_value (some value) = length_of (utf8 value)
  get_content_length_value none = none

abbrev pub is_some : Option Bytes → Bool
is_some (some _) = true
is_some none = false

module _ (http : Http) where
  unfoldable pub is_request_upgrade : RequestHeader http → Bool
  unfolding Request.get_header
  is_request_upgrade h = is_http11 h.version && is_some (Request.get_header http h (text "upgrade"))

  unfoldable pub is_response_upgrade : ResponseHeader http → Bool
  is_response_upgrade h = is_http11 h.version && (h.status == 101)

  abbrev expects : Option Bytes → Bool
  expects (some value) = eq_ignore_case value (text "100-continue")
  expects none = false

  unfoldable pub is_request_expect_continue : RequestHeader http → Bool
  unfolding Request.get_header
  is_request_expect_continue h =
      is_http11 h.version && expects (Request.get_header http h (text "expect"))
