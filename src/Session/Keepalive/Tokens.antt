-- ===== src/Session/Keepalive/Tokens.antt =====
-- core/src/session/utils.rs: the loop over the Connection header's tokens, which ends early, against
-- a search of them all.
use glaive.Prelude.{
  ◌≡◌, refl, Bool, true, false, ◌&&◌, ◌||◌, List, [], ◌∷◌, arith, if◌then◌else◌, Bool-cases, inl,
  inr,
}
use glaive.Text.{Text, text}
use glaive.Session.Keepalive.{ConnectionValue, eq_ignore_case, parse_tokens}

-- Whether a word is among the tokens, in any case.
abbrev pub mentions : Text → List Text → Bool
mentions word [] = false
mentions word (token ∷ ts) = if eq_ignore_case token word then true else mentions word ts

-- "close" is not read as "upgrade".
apart :
    (t : Text) → eq_ignore_case t (text "close") ≡ true → eq_ignore_case t (text "upgrade") ≡ false
apart [] e = refl
apart (c ∷ t) e = ground (arith, e)

abbrev pub found : Bool → Bool → List Text → ConnectionValue
found close upgrade ts = record {
  keep_alive = false;
  upgrade = upgrade || mentions (text "upgrade") ts;
  close = close || mentions (text "close") ts;
}

parse_tokens-found :
    (ts : List Text) (close upgrade : Bool)
    → (upgrade && close) ≡ false
    → parse_tokens ts close upgrade ≡ found close upgrade ts
unfolding parse_tokens
parse_tokens-found [] true true h = absurd cc
parse_tokens-found [] true false h = refl
parse_tokens-found [] false true h = refl
parse_tokens-found [] false false h = refl
parse_tokens-found (token ∷ ts) true true h = absurd cc
parse_tokens-found (token ∷ ts) true false h =
    elim (Bool-cases (eq_ignore_case token (text "close"))) [
      | inl t ↦ let u = apart token t in rw (t, u) (parse_tokens-found ts true false refl)
      | inr t ↦ elim (Bool-cases (eq_ignore_case token (text "upgrade"))) [
        | inl u ↦ rw (t, u) refl
        | inr u ↦ rw (t, u) (parse_tokens-found ts true false refl)
      ]
    ]
parse_tokens-found (token ∷ ts) false true h =
    elim (Bool-cases (eq_ignore_case token (text "close"))) [
      | inl t ↦ rw t refl
      | inr t ↦ elim (Bool-cases (eq_ignore_case token (text "upgrade"))) [
        | inl u ↦ rw (t, u) (parse_tokens-found ts false true refl)
        | inr u ↦ rw (t, u) (parse_tokens-found ts false true refl)
      ]
    ]
parse_tokens-found (token ∷ ts) false false h =
    elim (Bool-cases (eq_ignore_case token (text "close"))) [
      | inl t ↦ let u = apart token t in rw (t, u) (parse_tokens-found ts true false refl)
      | inr t ↦ elim (Bool-cases (eq_ignore_case token (text "upgrade"))) [
        | inl u ↦ rw (t, u) (parse_tokens-found ts false true refl)
        | inr u ↦ rw (t, u) (parse_tokens-found ts false false refl)
      ]
    ]

-- The loop over the tokens of a Connection header, which ends as soon as both flags are set, sets
-- the flag of close exactly when "close" is among the tokens, in any case, and that of upgrade
-- exactly when "upgrade" is; it never sets keep-alive.
pub parse_tokens-mentions :
    (ts : List Text)
    → parse_tokens ts false false ≡ record {
      keep_alive = false;
      upgrade = mentions (text "upgrade") ts;
      close = mentions (text "close") ts;
    }
parse_tokens-mentions ts = parse_tokens-found ts false false refl
