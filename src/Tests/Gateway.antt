-- ===== src/Tests/Gateway.antt =====
-- A router with one cluster, tests of the request filter, and instances of its theorems.
use glaive.Prelude.{
  ℕ, suc, ◌≡◌, refl, none, some, Bool, true, false, List, [], ◌∷◌, ◌++◌, ok, arith, ◌==◌,
  if◌then◌else◌, leb,
}
use glaive.Text.{Text, text, same, trim, trim_start_matches}
use glaive.Gateway.Context.{pos, HeaderValue, Session, new_ctx, get_client_ip}
use glaive.Gateway.Path
use glaive.Gateway.Auth
use glaive.Gateway.Auth.{Decoded, valid, refused, Consumer, AuthType, jwt_auth, key_auth}
use glaive.Gateway.Limiter
use glaive.Gateway.Limiter.{RateLimiter}
use glaive.Gateway.Proxy
use glaive.Gateway.Proxy.{Cluster, ProxyRouter, State, request_filter, fail_to_connect}
use glaive.Gateway.Proxy.Answers.{Filtered, request_filter-Answers}
use glaive.Gateway.Proxy.Admits.{Admits, request_filter-Admits}
use glaive.Gateway.Proxy.Retries.{after_failures, fail_to_connect_retries}

abbrev parses : Text → Bool
parses [] = false
parses (c ∷ t) = c == 47

-- A token is good when it is the secret, and is the consumer "ann".
abbrev decode : Text → Text → Decoded
decode token secret =
    if same token secret
    then valid (record { exp = 0; consumer = text "ann" })
    else refused (text "InvalidSignature")

abbrev observe_one : List Text → Text → ℕ
observe_one [] key = 1
observe_one (k ∷ seen) key = let n = observe_one seen key in if same k key then suc n else n

abbrev counting : RateLimiter
counting = record {
  Rate = List Text;
  observe = λ seen key. (key ∷ seen, pos (observe_one seen key));
}

abbrev shop : Cluster
shop = record {
  name = text "shop";
  whitelist = some (text "10.0.0.1" ∷ []);
  global = some (pos 2);
  client = none;
  retry = some 3;
  auth = some (jwt_auth (record { secret = text "s3cret" }));
  consumers = some (record { name = text "ann"; acl = text "read" ∷ [] } ∷ []);
  routes = some (some (text "/items" ∷ []) ∷ []);
}

abbrev router : ProxyRouter
router = record {
  clusters = shop ∷ [];
  prefix_map = (text "/shop", 0) ∷ [];
  consumers = some (record { name = text "ann"; acl = text "write" ∷ (text "read" ∷ []) } ∷ []);
}

abbrev header : Text → HeaderValue
header t = record { utf8 = some t; visible = some t }

abbrev request : Text → Text → Session
request path token = record {
  path = path;
  uri = path ++ text "?page=2";
  authorization = some (header token);
  x_forwarded_for = some (header (text "10.0.0.1, 10.0.0.9"));
  x_real_ip = none;
  remote_addr = some (text "10.0.0.9");
  replies = [];
  keepalive = true;
  client = record { takes_header = true; takes_body = true; has_panicked = false };
}

abbrev arrives : Session → State parses decode counting
unfolding new_ctx
arrives s = record { session = s; ctx = new_ctx; rate = [] }

abbrev good : State parses decode counting
good = arrives (request (text "/shop/items") (text "Bearer s3cret"))

abbrev gateway_program : Unit {0}
unfolding request_filter Proxy.filter_selected Proxy.filter_at Proxy.filter_cluster
    Proxy.limit_global Proxy.limit_client Proxy.authenticate Limiter.global_limiter
    Limiter.client_limiter Auth.basic_key Auth.basic_jwt Path.select_cluster get_client_ip new_ctx
    arrives good
gateway_program = tt

-- The request goes on, with the prefix and the query gone.
abbrev passed : State parses decode counting
unfolding gateway_program
passed = record {
  session = record (good.session) { path = text "/items"; uri = text "/items" };
  ctx = record (good.ctx) {
    cluster_identity = some (text "shop");
    cluster_address = 0;
    uri_origin = some (text "/shop/items?page=2");
    client_address = some (text "10.0.0.1");
    client_credentials = some (text "Bearer s3cret");
    enable_endpoint = true;
  };
  rate = text "shop" ∷ [];
}

goes_on_test : request_filter parses decode counting router good ≡ ok (passed, false)
unfolding gateway_program passed
goes_on_test = refl

trims : trim (trim_start_matches (text "Bearer ") (text "Bearer Bearer  abc ")) ≡ text "abc"
trims = refl

request_filter-Admits_example : Admits parses decode counting router good.session passed.session
request_filter-Admits_example =
    request_filter-Admits parses decode counting router good passed goes_on_test

-- A bad token is refused, once.
request_filter-Answers_example :
    Filtered parses decode counting (arrives (request (text "/shop/items") (text "Bearer other"))) (
      request_filter parses decode counting router
        (arrives (request (text "/shop/items") (text "Bearer other"))))
unfolding arrives
request_filter-Answers_example =
    request_filter-Answers parses decode counting router
      (arrives (request (text "/shop/items") (text "Bearer other"))) (omega arith, tt) refl

-- Three retries are configured, and the failure after three others is retried too.
fail_to_connect_retries_example : (fail_to_connect shop (after_failures 3 shop new_ctx)).1 ≡ leb 3 3
unfolding new_ctx
fail_to_connect_retries_example = fail_to_connect_retries 3 shop new_ctx refl (omega arith)
