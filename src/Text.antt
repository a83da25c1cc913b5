-- ===== src/Text.antt =====
-- What the sessions and the gateway use of Rust's `str`: texts are lists of characters, by their codes.
use glaive.Prelude.{
  ℕ, zero, suc, ◌≡◌, refl, Option, none, some, Bool, true, false, ◌&&◌, ◌||◌, List, [], ◌∷◌, arith,
  leb, ◌==◌, if◌then◌else◌, length,
}
use Prim.Native.Char.{code}
use Prim.Native.String.{String}

abbrev pub Text : Type 0
Text = List ℕ

abbrev pub text : String → Text
text String.[] = []
text (String.◌∷◌ c s) = code c ∷ text s

abbrev pub same : Text → Text → Bool
same [] [] = true
same [] (c ∷ t) = false
same (c ∷ s) [] = false
same (c ∷ s) (d ∷ t) = if c == d then same s t else false

pub eq_of_same : (s t : Text) → same s t ≡ true → s ≡ t
eq_of_same [] [] e = refl
eq_of_same [] (d ∷ t) e = absurd cc
eq_of_same (c ∷ s) [] e = absurd cc
eq_of_same (c ∷ s) (d ∷ t) e =
    let rest : s ≡ t = eq_of_same s t (ground (arith, e)) in ground (arith, e, rest)

pub same_self : (t : Text) → same t t ≡ true
same_self [] = refl
same_self (c ∷ t) = ground (arith, same_self t)

-- `contains`, of a list.
abbrev pub contains : Text → List Text → Bool
contains t [] = false
contains t (s ∷ ss) = if same s t then true else contains t ss

abbrev pub slash : ℕ
slash = 47

-- `str::strip_prefix`.
abbrev pub strip_prefix : Text → Text → Option Text
strip_prefix [] t = some t
strip_prefix (c ∷ p) [] = none
strip_prefix (c ∷ p) (d ∷ t) = if c == d then strip_prefix p t else none

-- `replacen(p, "", 1)`: the first place where the pattern stands goes.
abbrev pub remove_first : Text → Text → Text
remove_first p [] = []
remove_first p (c ∷ t) = elim (strip_prefix p (c ∷ t)) [
  | some rest ↦ rest
  | none ↦ c ∷ remove_first p t
]

-- `str::split` at a character: the piece before it, and the pieces after.
abbrev pub join_first : ℕ → List Text → List Text
join_first c [] = (c ∷ []) ∷ []
join_first c (piece ∷ pieces) = (c ∷ piece) ∷ pieces

abbrev pub split : ℕ → Text → List Text
split sep [] = [] ∷ []
split sep (c ∷ t) = if c == sep then [] ∷ split sep t else join_first c (split sep t)

abbrev pub not_empty : List Text → List Text
not_empty [] = []
not_empty ([] ∷ ts) = not_empty ts
not_empty ((c ∷ t) ∷ ts) = (c ∷ t) ∷ not_empty ts

-- `char::is_whitespace`.
abbrev pub is_whitespace : ℕ → Bool
is_whitespace c =
    (leb 9 c && leb c 13)
    || ((c == 32)
        || ((c == 133)
            || ((c == 160)
                || ((c == 5760)
                    || ((leb 8192 c && leb c 8202)
                        || ((c == 8232)
                            || ((c == 8233) || ((c == 8239) || ((c == 8287) || (c == 12288))))))))))

abbrev pub trim_start : Text → Text
trim_start [] = []
trim_start (c ∷ t) = if is_whitespace c then trim_start t else c ∷ t

abbrev pub trim_end : Text → Text
trim_end [] = []
trim_end (c ∷ t) = elim (trim_end t) [
  | [] ↦ if is_whitespace c then [] else c ∷ []
  | d ∷ rest ↦ c ∷ (d ∷ rest)
]

-- `str::trim`.
abbrev pub trim : Text → Text
trim t = trim_end (trim_start t)

-- `trim_start_matches`: the pattern goes as often as it stands at the front. Each time takes a
-- character at least, so that the text's length is fuel enough.
abbrev pub strip_all : ℕ → Text → Text → Text
strip_all zero p t = t
strip_all (suc fuel) p t = elim (strip_prefix p t) [ none ↦ t | some rest ↦ strip_all fuel p rest ]

abbrev pub trim_start_matches : Text → Text → Text
trim_start_matches p t = strip_all (length t) p t
