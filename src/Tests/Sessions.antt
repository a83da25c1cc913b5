-- ===== src/Tests/Sessions.antt =====
-- Tests of the session's small parts, and instances of their theorems.
use glaive.Prelude.{◌≡◌, refl, none, some, true, false, List, [], ◌∷◌, arith}
use mathlib.Core.List.{flatten}
use glaive.Text.{Text, text}
use glaive.Session.Buffer
use glaive.Session.Buffer.{new, write_buffer, get_buffer, clear_buffer}
use glaive.Session.Buffer.Holds.{Holds, write_pieces, new-Holds}
use glaive.Session.Keepalive.{
  ConnectionHeader, is_connection_keepalive, parse_connection_header, parse_tokens,
}
use glaive.Session.Keepalive.Tokens.{mentions, parse_tokens-mentions}

abbrev pieces : List Text
pieces = text "abc" ∷ (text "de" ∷ [])

abbrev buffer_program : Unit {0}
unfolding flatten new write_buffer get_buffer Buffer.is_buffer_empty clear_buffer
buffer_program = tt

keeps_all : get_buffer (write_pieces (new 5) pieces) ≡ some (text "abcde")
unfolding buffer_program write_pieces
keeps_all = refl

is_cut :
    write_pieces (new 4) pieces ≡ record { buffer = text "abc"; capacity = 4; truncated = true }
unfolding buffer_program write_pieces
is_cut = refl

new-Holds_example : Holds 4 (flatten pieces) (write_pieces (new 4) pieces)
unfolding flatten
new-Holds_example = new-Holds 4 pieces (omega arith)

abbrev header : Text → ConnectionHeader
header t = record { bytes = t; utf8 = some t }

abbrev header_program : Unit {0}
unfolding is_connection_keepalive parse_connection_header parse_tokens
header_program = tt

closes : is_connection_keepalive (header (text "Upgrade , cLose")) ≡ some false
unfolding header_program
closes = refl

keeps_alive : is_connection_keepalive (header (text "Keep-Alive")) ≡ some true
unfolding header_program
keeps_alive = refl

-- In a list "keep-alive" is not seen.
not_seen : is_connection_keepalive (header (text "keep-alive, upgrade")) ≡ none
unfolding header_program
not_seen = refl

parse_tokens-mentions_example :
    parse_tokens (text "Upgrade" ∷ (text "close" ∷ [])) false false ≡ record {
      keep_alive = false;
      upgrade = mentions (text "upgrade") (text "Upgrade" ∷ (text "close" ∷ []));
      close = mentions (text "close") (text "Upgrade" ∷ (text "close" ∷ []));
    }
parse_tokens-mentions_example = parse_tokens-mentions (text "Upgrade" ∷ (text "close" ∷ []))
