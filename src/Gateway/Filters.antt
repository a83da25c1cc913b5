-- ===== src/Gateway/Filters.antt =====
-- glaive/src/proxy.rs, `upstream_request_filter` and `response_filter`: the headers that a cluster's
-- configuration inserts and removes, and those that the gateway sets itself.
pub mod Configured
pub mod Sets
use glaive.Prelude.{
  ℕ, zero, suc, ◌+◌, ◌/◌, ◌%◌, ◌≡◌, Option, none, some, Bool, true, false, ◌&&◌, ◌||◌, List, [],
  ◌∷◌, ◌++◌, Outcome, ok, err, panic, invalid_head, ◌>>=◌, leb, ltb, ◌==◌, if◌then◌else◌,
}
use glaive.Session.Http.{HeaderMaps, to_lower}
use glaive.Text.{Text, text}

pub record InsertHeader : Type 0 where
  pub key : Text
  pub value : Text

pub record RemoveHeader : Type 0 where
  pub key : Text

pub record Headers : Type 0 where
  pub insert : Option (List InsertHeader)
  pub remove : Option (List RemoveHeader)

-- `def::Request` and `def::Response`, which have the same field.
pub record Filter : Type 0 where
  pub headers : Option Headers

abbrev pub is_token_char : ℕ → Bool
is_token_char c =
    (c == 45) || ((leb 48 c && leb c 57) || ((leb 65 c && leb c 90) || (leb 97 c && leb c 122)))

abbrev pub is_token : Text → Bool
is_token [] = true
is_token (c ∷ t) = is_token_char c && is_token t

abbrev pub is_visible : Text → Bool
is_visible [] = true
is_visible (c ∷ t) = (leb 32 c && leb c 126) && is_visible t

-- The headers of pingora, which wrap those of the http crate: a name of letters, digits and dashes
-- is taken in lower case, and a value of visible characters as it is.
pub record GatewayHeaders : Type 1 where
  pub maps : HeaderMaps
  pub name_of : Text → Option Text
  pub value_of : Text → Option Text
  pub token_name :
      (c : ℕ) (t : Text) → is_token (c ∷ t) ≡ true → name_of (c ∷ t) ≡ some (to_lower (c ∷ t))
  pub visible_value : (t : Text) → is_visible t ≡ true → value_of t ≡ some t

-- `key.replace(' ', "-")`.
abbrev pub dashed : Text → Text
dashed [] = []
dashed (c ∷ t) = (if c == 32 then 45 else c) ∷ dashed t

-- A number in decimal; each digit takes a tenth, so that the number is fuel enough.
unfoldable pub decimal : ℕ → ℕ → Text
decimal zero n = (48 + n % 10) ∷ []
decimal (suc fuel) n =
    let rest = decimal fuel (n / 10) in
    if ltb n 10 then (48 + n) ∷ [] else rest ++ ((48 + n % 10) ∷ [])

-- `CachePhase`, with what the reason of a disabled cache decides.
pub data CachePhase : Type 0 where
  hit : CachePhase
  miss : CachePhase
  stale : CachePhase
  expired : CachePhase
  revalidated : CachePhase
  revalidated_no_cache : CachePhase
  deferred : CachePhase
  other : CachePhase

-- `session.cache`; the time that it waited for a lock is in milliseconds.
pub record CacheState : Type 0 where
  pub enabled : Bool
  pub phase : CachePhase
  pub lock_duration : Option ℕ

abbrev pub enabled_status : CachePhase → Text
enabled_status hit = text "hit"
enabled_status miss = text "miss"
enabled_status stale = text "stale"
enabled_status expired = text "expired"
enabled_status revalidated = text "revalidated"
enabled_status revalidated_no_cache = text "revalidated"
enabled_status deferred = text "invalid"
enabled_status other = text "invalid"

abbrev pub disabled_status : CachePhase → Text
disabled_status deferred = text "deferred"
disabled_status _ = text "no-cache"

abbrev pub cache_status : CacheState → Text
cache_status cache =
    if cache.enabled then enabled_status cache.phase else disabled_status cache.phase

module _ (g : GatewayHeaders) where
  open g use {maps, name_of, value_of}

  abbrev pub Map : Type 0
  Map = maps.Map Text

  -- The two `unwrap`s, and the append, which takes what is converted.
  abbrev pub append_with : Option Text → Option Text → Map → Outcome Map
  append_with none value h = panic
  append_with (some name) none h = panic
  append_with (some name) (some value) h = ok (maps.append h name value)

  unfoldable pub insert_each : List InsertHeader → Map → Outcome Map
  insert_each [] h = ok h
  insert_each (i ∷ is) h = do
    h' ← append_with (name_of (dashed i.key)) (value_of i.value) h
    insert_each is h'

  -- A key that is not a name is on no header.
  abbrev pub remove_key : Option Text → Map → Map
  remove_key none h = h
  remove_key (some name) h = maps.remove h name

  unfoldable pub remove_each : List RemoveHeader → Map → Map
  remove_each [] h = h
  remove_each (r ∷ rs) h = remove_each rs (remove_key (name_of (dashed r.key)) h)

  abbrev pub insert_if : Option (List InsertHeader) → Map → Outcome Map
  insert_if none h = ok h
  insert_if (some is) h = insert_each is h

  abbrev pub remove_if : Option (List RemoveHeader) → Map → Map
  remove_if none h = h
  remove_if (some rs) h = remove_each rs h

  abbrev pub filter_headers : Option Headers → Map → Outcome Map
  filter_headers none h = ok h
  filter_headers (some f) h = do h' ← insert_if f.insert h; ok (remove_if f.remove h')

  abbrev pub filter_if : Option Filter → Map → Outcome Map
  filter_if none h = ok h
  filter_if (some f) h = filter_headers f.headers h

  unfoldable pub upstream_request_filter : Option Filter → Map → Outcome Map
  unfolding insert_each remove_each
  upstream_request_filter request h = filter_if request h

  -- `insert_header` of texts, which fails where one does not convert.
  abbrev pub insert_with : Option Text → Option Text → Map → Outcome Map
  insert_with none value h = err invalid_head
  insert_with (some name) none h = err invalid_head
  insert_with (some name) (some value) h = ok (maps.insert h name value)

  abbrev pub insert_text : Map → Text → Text → Outcome Map
  insert_text h name value = insert_with (name_of name) (value_of value) h

  abbrev pub with_lock_time : Option ℕ → Map → Outcome Map
  with_lock_time none h = ok h
  with_lock_time (some millis) h =
      insert_text h (text "x-cache-lock-time-ms") (decimal millis millis)

  unfoldable pub response_filter : Option Filter → CacheState → Map → Outcome Map
  unfolding insert_each remove_each decimal
  response_filter response cache h = do
    h1 ← filter_if response h
    h2 ← insert_text h1 (text "Server") (text "Glaive Gateway")
    h3 ← insert_text h2 (text "x-cache-status") (cache_status cache)
    with_lock_time cache.lock_duration h3
