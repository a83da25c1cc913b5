-- ===== src/Tests/Filters.antt =====
-- Tests of the gateway's header filters, and an instance of their theorem.
use glaive.Prelude.{ℕ, ◌≡◌, refl, Option, none, some, true, List, [], ◌∷◌, ok, panic, if◌then◌else◌}
use glaive.Session.Http.{to_lower}
use glaive.Gateway.Filters.{
  Filter, GatewayHeaders, CacheState, is_token, is_visible, hit, insert_each, remove_each,
  upstream_request_filter, response_filter, decimal,
}
use glaive.Gateway.Filters.Configured.{Leaves}
use glaive.Gateway.Filters.Sets.{answered, response_filter-Leaves}
use glaive.Tests.Platforms.{listed}
use glaive.Text.{Text, text}

abbrev token : Text → Option Text
token t = if is_token t then some (to_lower t) else none

abbrev visible : Text → Option Text
visible t = if is_visible t then some t else none

pub token_is :
    (c : ℕ) (t : Text) → is_token (c ∷ t) ≡ true → token (c ∷ t) ≡ some (to_lower (c ∷ t))
token_is c t e = rw e refl

pub visible_is : (t : Text) → is_visible t ≡ true → visible t ≡ some t
visible_is t e = rw e refl

abbrev gateway : GatewayHeaders
gateway = record {
  maps = listed;
  name_of = token;
  value_of = visible;
  token_name = token_is;
  visible_value = visible_is;
}

abbrev filter : Filter
filter = record {
  headers = some (record {
    insert = some (record { key = text "X From"; value = text "a" } ∷ []);
    remove = some (record { key = text "x-powered-by" } ∷ []);
  });
}

abbrev from_server : List (Text × Text)
from_server =
    (text "server", text "nginx")
    ∷ ((text "x-powered-by", text "php") ∷ ((text "x-from", text "b") ∷ []))

abbrev cache : CacheState
cache = record { enabled = true; phase = hit; lock_duration = some 12 }

filters_request :
    upstream_request_filter gateway (some filter) from_server
    ≡ ok (
        (text "server", text "nginx")
        ∷ ((text "x-from", text "b") ∷ ((text "x-from", text "a") ∷ [])))
unfolding upstream_request_filter insert_each remove_each
filters_request = refl

refuses_key :
    upstream_request_filter gateway
      (some (record {
        headers = some (record {
          insert = some (record { key = text "a:b"; value = text "c" } ∷ []);
          remove = none;
        });
      }))
      from_server
    ≡ panic
unfolding upstream_request_filter insert_each
refuses_key = refl

counts_time : decimal 120 120 ≡ text "120"
unfolding decimal
counts_time = refl

response_filter-Leaves_example :
    Leaves gateway
      (response_filter gateway (some filter) cache from_server)
      (answered gateway (some filter) ((text "x-from", text "a") ∷ []) cache from_server)
response_filter-Leaves_example =
    response_filter-Leaves gateway (some filter) ((text "x-from", text "a") ∷ []) cache from_server
      (refl, (refl, tt))
