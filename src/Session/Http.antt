-- ===== src/Session/Http.antt =====
-- The interface of the http crate: header maps, and what it reads as names, values and codes.
use glaive.Prelude.{
  ℕ, ◌≡◌, Option, none, some, Bool, true, false, ◌&&◌, List, [], ◌∷◌, ◌++◌, leb, ltb, if◌then◌else◌,
}
use glaive.Session.Offset.{Bytes}
use glaive.Session.Keepalive.{lower}
use glaive.Text.{Text, same}

pub data Version : Type 0 where
  http09 : Version
  http10 : Version
  http11 : Version
  http2 : Version
  http3 : Version

abbrev pub is_http11 : Version → Bool
is_http11 http11 = true
is_http11 _ = false

abbrev pub names : {V : Type 0} → List (Text × V) → List Text
names [] = []
names ((name, value) ∷ entries) = name ∷ names entries

-- The values of a name, in order.
abbrev pub values : {V : Type 0} → List (Text × V) → Text → List V
values [] name = []
values ((key, v) ∷ m) name = let rest = values m name in if same name key then v ∷ rest else rest

abbrev pub first : {V : Type 0} → List V → Option V
first [] = none
first (v ∷ vs) = some v

-- `HeaderMap`. A header's name may have several values, in order. The names of an iteration are
-- decided by the names before: the order does not depend on the values.
pub record HeaderMaps : Type 1 where
  pub Map : Type 0 → Type 0
  pub empty : {V : Type 0} → Map V
  pub append : {V : Type 0} → Map V → Text → V → Map V
  pub insert : {V : Type 0} → Map V → Text → V → Map V
  pub remove : {V : Type 0} → Map V → Text → Map V
  pub get_all : {V : Type 0} → Map V → Text → List V
  pub iter : {V : Type 0} → Map V → List (Text × V)
  pub get_iter : {V : Type 0} (m : Map V) (name : Text) → values (iter m) name ≡ get_all m name
  pub iter_empty : {V : Type 0} → iter (empty {V = V}) ≡ []
  pub append_names :
      {V W : Type 0} (m : Map V) (k : Map W) (name : Text) (v : V) (w : W)
      → names (iter m) ≡ names (iter k)
      → names (iter (append m name v)) ≡ names (iter (append k name w))
  pub insert_names :
      {V W : Type 0} (m : Map V) (k : Map W) (name : Text) (v : V) (w : W)
      → names (iter m) ≡ names (iter k)
      → names (iter (insert m name v)) ≡ names (iter (insert k name w))
  pub remove_names :
      {V W : Type 0} (m : Map V) (k : Map W) (name : Text)
      → names (iter m) ≡ names (iter k)
      → names (iter (remove m name)) ≡ names (iter (remove k name))
  pub get_insert :
      {V : Type 0} (m : Map V) (name : Text) (v : V) → get_all (insert m name v) name ≡ v ∷ []
  pub get_insert_other :
      {V : Type 0} (m : Map V) (name other : Text) (v : V)
      → same name other ≡ false
      → get_all (insert m name v) other ≡ get_all m other
  pub get_append :
      {V : Type 0} (m : Map V) (name : Text) (v : V)
      → get_all (append m name v) name ≡ get_all m name ++ (v ∷ [])
  pub get_append_other :
      {V : Type 0} (m : Map V) (name other : Text) (v : V)
      → same name other ≡ false
      → get_all (append m name v) other ≡ get_all m other
  pub get_remove : {V : Type 0} (m : Map V) (name : Text) → get_all (remove m name) name ≡ []
  pub get_remove_other :
      {V : Type 0} (m : Map V) (name other : Text)
      → same name other ≡ false
      → get_all (remove m name) other ≡ get_all m other

abbrev pub to_lower : List ℕ → List ℕ
to_lower [] = []
to_lower (c ∷ t) = lower c ∷ to_lower t

-- The conversions. A name, a method or a target that is not valid is none; a name is valid in any
-- case when it is in lower case, which is the case that it is kept in.
pub record Http : Type 1 where
  pub maps : HeaderMaps
  pub header_name : Bytes → Option Text
  pub header_value : Bytes → Option Bytes
  pub method_of : Text → Option Text
  pub uri_of : Bytes → Option Text
  pub status_of : ℕ → Option ℕ
  pub canonical_reason : ℕ → Option Text
  pub status_text : ℕ → Text
  pub any_case :
      (bs : Bytes) (name : Text)
      → header_name (to_lower bs) ≡ some name
      → header_name bs ≡ some name

-- `StatusCode::is_informational`, of the status as a number.
abbrev pub is_informational : ℕ → Bool
is_informational status = leb 100 status && ltb status 200
