-- ===== src/Session/Keepalive.antt =====
-- core/src/session/keepalive.rs, and the Connection header of core/src/session/utils.rs.
pub mod Tokens
use glaive.Prelude.{
  ℕ, ◌+◌, Option, none, some, Bool, true, false, ◌&&◌, List, [], ◌∷◌, leb, ◌==◌, if◌then◌else◌,
}
use glaive.Session.Offset.{Bytes}
use glaive.Text.{Text, text, split, trim, not_empty}

pub data KeepaliveStatus : Type 0 where
  timeout : ℕ → KeepaliveStatus
  infinite : KeepaliveStatus
  off : KeepaliveStatus

pub record ConnectionValue : Type 0 where
  pub keep_alive : Bool
  pub upgrade : Bool
  pub close : Bool

abbrev pub nothing : ConnectionValue
nothing = record { keep_alive = false; upgrade = false; close = false }

abbrev pub lower : ℕ → ℕ
lower c = if leb 65 c && leb c 90 then c + 32 else c

-- `eq_ignore_ascii_case`, of bytes and of characters.
abbrev pub eq_ignore_case : List ℕ → List ℕ → Bool
eq_ignore_case [] [] = true
eq_ignore_case [] (d ∷ t) = false
eq_ignore_case (c ∷ s) [] = false
eq_ignore_case (c ∷ s) (d ∷ t) =
    let rest = eq_ignore_case s t in if lower c == lower d then rest else false

abbrev pub trim_each : List Text → List Text
trim_each [] = []
trim_each (t ∷ ts) = trim t ∷ trim_each ts

abbrev pub tokens : Text → List Text
tokens value = not_empty (trim_each (split 44 value))

-- The result of the loop, from the flags that are set.
abbrev pub flagged : Bool → Bool → ConnectionValue
flagged true upgrade = record nothing { close = true }
flagged false true = record nothing { upgrade = true }
flagged false false = nothing

abbrev pub set_close : Text → Bool → Bool
set_close token close = if eq_ignore_case token (text "close") then true else close

abbrev pub set_upgrade : Text → Bool → Bool
set_upgrade token upgrade =
    if eq_ignore_case token (text "close")
    then upgrade
    else if eq_ignore_case token (text "upgrade")
    then true
    else upgrade

-- The loop over the tokens, which ends early when both are set.
unfoldable pub parse_tokens : List Text → Bool → Bool → ConnectionValue
parse_tokens [] close upgrade = flagged close upgrade
parse_tokens (token ∷ ts) close upgrade =
    let close' = set_close token close in
    let upgrade' = set_upgrade token upgrade in
    let rest = parse_tokens ts close' upgrade' in
    if upgrade' && close' then record nothing { upgrade = true; close = true } else rest

-- A header's bytes, and what `from_utf8` gives of them.
pub record ConnectionHeader : Type 0 where
  pub bytes : Bytes
  pub utf8 : Option Text

abbrev pub or_empty : Option Text → Text
or_empty none = []
or_empty (some t) = t

unfoldable pub parse_connection_header : ConnectionHeader → ConnectionValue
unfolding parse_tokens
parse_connection_header value =
    if eq_ignore_case value.bytes (text "close")
    then record nothing { close = true }
    else if eq_ignore_case value.bytes (text "keep-alive")
    then record nothing { keep_alive = true }
    else if eq_ignore_case value.bytes (text "upgrade")
    then record nothing { upgrade = true }
    else parse_tokens (tokens (or_empty value.utf8)) false false

unfoldable pub is_connection_keepalive : ConnectionHeader → Option Bool
unfolding parse_connection_header
is_connection_keepalive header =
    let value = parse_connection_header header in
    if value.keep_alive then some true else if value.close then some false else none
