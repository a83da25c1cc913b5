-- ===== src/Tests/Platforms.antt =====
-- A concrete platform for the sessions: header maps as lists, a parser for one request and one
-- response, and the streams and sinks of the other tests.
use glaive.Prelude.{
  ℕ, ◌+◌, ◌/◌, ◌%◌, ◌≤◌, ◌≡◌, refl, sym, ap, ◌∙◌, Option, none, some, false, ◌&&◌, List, [], ◌∷◌,
  ◌++◌, arith, leb, ltb, length, if◌then◌else◌, ◌==◌, Bool-cases, inl, inr, append-nil,
}
use glaive.Session.Offset.{Bytes}
use glaive.Session.Keepalive.{lower}
use glaive.Session.Http.{HeaderMaps, Http, names, values, to_lower}
use glaive.Session.Headers.Entries.{drop_name, values-append, values-drop_name, values-drop_other}
use glaive.Session.Platform.{Platform, ParsedRequest, ParsedResponse, HeadStatus, complete, partial}
use glaive.Tests.Samples.{feed, tape, flat, zeroed, hex_parser}
use glaive.Text.{Text, text, same, same_self, eq_of_same}

abbrev keep_names : List Text → Text → List Text
keep_names [] name = []
keep_names (key ∷ keys) name =
    let rest = keep_names keys name in if same name key then rest else key ∷ rest

module _ {V : Type 0} where
  abbrev put : List (Text × V) → Text → V → List (Text × V)
  put m name v = m ++ ((name, v) ∷ [])

  names-drop_name :
      (m : List (Text × V)) (name : Text) → names (drop_name m name) ≡ keep_names (names m) name
  names-drop_name [] name = refl
  names-drop_name ((key, v) ∷ m) name = elim (Bool-cases (same name key)) [
    | inl e ↦ rw e (names-drop_name m name)
    | inr e ↦ rw e (ap (◌∷◌ key) (names-drop_name m name))
  ]

  names-put :
      (m : List (Text × V)) (name : Text) (v : V) → names (put m name v) ≡ names m ++ (name ∷ [])
  names-put [] name v = refl
  names-put ((key, w) ∷ m) name v = ap (◌∷◌ key) (names-put m name v)

abbrev MapOf : Type 0 → Type 0
MapOf V = List (Text × V)

pub put_names :
    {V W : Type 0} (m : MapOf V) (k : MapOf W) (name : Text) (v : V) (w : W)
    → names m ≡ names k
    → names (put m name v) ≡ names (put k name w)
put_names m k name v w e =
    names-put m name v ∙ ap (λ ns. ns ++ (name ∷ [])) e ∙ sym (names-put k name w)

pub drop_names :
    {V W : Type 0} (m : MapOf V) (k : MapOf W) (name : Text)
    → names m ≡ names k
    → names (drop_name m name) ≡ names (drop_name k name)
drop_names m k name e =
    names-drop_name m name ∙ ap (λ ns. keep_names ns name) e ∙ sym (names-drop_name k name)

pub put_same :
    {V : Type 0} (m : MapOf V) (name : Text) (v : V)
    → values (put m name v) name ≡ values m name ++ (v ∷ [])
put_same m name v = values-append m ((name, v) ∷ []) name ∙ rw (same_self name) refl

pub put_other :
    {V : Type 0} (m : MapOf V) (name other : Text) (v : V)
    → same name other ≡ false
    → values (put m name v) other ≡ values m other
put_other m name other v apart =
    values-append m ((name, v) ∷ []) other
    ∙ rw (apart_swapped name other apart) (append-nil (values m other))
  where
    apart_swapped : (a b : Text) → same a b ≡ false → same b a ≡ false
    apart_swapped a b e = elim (Bool-cases (same b a)) [
      | inl y ↦ absurd (ground (arith, e, same_self a, eq_of_same b a y))
      | inr n ↦ n
    ]

abbrev replaced : {V : Type 0} → MapOf V → Text → V → MapOf V
replaced m name v = put (drop_name m name) name v

abbrev pub listed : HeaderMaps
listed = record {
  Map = MapOf;
  empty = [];
  append = put;
  insert = replaced;
  remove = drop_name;
  get_all = values;
  iter = λ m. m;
  get_iter = λ m name. refl;
  iter_empty = refl;
  append_names = put_names;
  insert_names = λ m k name v w e.
      put_names (drop_name m name) (drop_name k name) name v w (drop_names m k name e);
  remove_names = drop_names;
  get_insert = λ m name v.
      put_same (drop_name m name) name v ∙ ap (λ vs. vs ++ (v ∷ [])) (values-drop_name m name);
  get_insert_other = λ m name other v apart.
      put_other (drop_name m name) name other v apart ∙ values-drop_other m name other apart;
  get_append = put_same;
  get_append_other = put_other;
  get_remove = values-drop_name;
  get_remove_other = values-drop_other;
}

lower_again : (c : ℕ) → lower (lower c) ≡ lower c
lower_again c = ground arith

to_lower_again : (t : Text) → to_lower (to_lower t) ≡ to_lower t
to_lower_again [] = refl
to_lower_again (c ∷ t) = rw (lower_again c) (ap (◌∷◌ (lower c)) (to_lower_again t))

pub any_case_lower :
    (bs : Bytes) (name : Text)
    → some (to_lower (to_lower bs)) ≡ some name
    → some (to_lower bs) ≡ some name
any_case_lower bs name e = ap some (sym (to_lower_again bs)) ∙ e

abbrev reason : ℕ → Option Text
reason status = if status == 200 then some (text "OK") else none

abbrev valid_status : ℕ → Option ℕ
valid_status n = if leb 100 n && ltb n 1000 then some n else none

-- Names in lower case, and every value, method and target.
abbrev pub http : Http
http = record {
  maps = listed;
  header_name = λ bs. some (to_lower bs);
  header_value = λ bs. some bs;
  method_of = λ t. some t;
  uri_of = λ bs. some bs;
  status_of = valid_status;
  canonical_reason = reason;
  status_text = λ n. (48 + n / 100) ∷ ((48 + n / 10 % 10) ∷ ((48 + n % 10) ∷ []));
  any_case = any_case_lower;
}

-- A parser that knows one head: it is complete as soon as it is there in full.
unfoldable pub parse_known : {A : Type 0} → ℕ → A → Bytes → HeadStatus A
parse_known size a bs = if leb size (length bs) then complete size a else partial

pub parse_known_fits :
    {A : Type 0} (known : ℕ) (a : A) (bs : Bytes) (size : ℕ) (r : A)
    → parse_known known a bs ≡ complete size r
    → size ≤ length bs
unfolding parse_known
parse_known_fits known a bs size r e = ground arith

abbrev pub request_head : Text
request_head = text "GET / HTTP/1.1 Connection: close "

abbrev pub known_request : ParsedRequest
known_request = record {
  method = some (text "GET");
  path = some (text "/");
  version = some 1;
  headers = record { name_start = 15; name_len = 10; value_start = 27; value_len = 5 } ∷ [];
}

abbrev pub known_response : ParsedResponse
known_response = record { code = some 200; version = some 1; reason = none; headers = [] }

abbrev pub platform : Platform
platform = record {
  http = http;
  io = feed;
  out = tape;
  bufs = flat;
  chain = λ bs. bs;
  memory = zeroed;
  chunk_parser = hex_parser;
  utf8 = λ bs. some bs;
  spare = λ bs. 20;
  parse_request = parse_known (length request_head) known_request;
  parse_response = parse_known 17 known_response;
  http_date = text "today";
  request_fits = parse_known_fits (length request_head) known_request;
  response_fits = parse_known_fits 17 known_response;
}
