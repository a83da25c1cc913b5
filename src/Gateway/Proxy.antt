-- ===== src/Gateway/Proxy.antt =====
-- glaive/src/proxy.rs: the filter that every request passes, and the retries.
pub mod Selects
pub mod Admits
pub mod Replies
pub mod Answers
pub mod Keeps
pub mod Retries
use glaive.Prelude.{
  ℕ, zero, suc, ◌+◌, Option, none, some, Bool, true, false, List, [], ◌∷◌, Outcome, ok, err, panic,
  add_usize, ltb, if◌then◌else◌,
}
use glaive.Text.{Text, same, contains}
use glaive.Gateway.Context.{
  Isize, Session, RouterCtx, error_response, restricted_ip_address, get_client_ip, visible_of,
}
use glaive.Gateway.Path.{select_cluster}
use glaive.Gateway.Auth.{
  AuthType, key_auth, jwt_auth, external, Consumer, Decoded, basic_key, basic_jwt,
}
use glaive.Gateway.Limiter.{RateLimiter, global_limiter, client_limiter}

-- What the filter reads of `ClusterMetadata`; a route is the paths that it lists.
pub record Cluster : Type 0 where
  pub name : Text
  pub whitelist : Option (List Text)
  pub global : Option Isize
  pub client : Option Isize
  pub retry : Option ℕ
  pub auth : Option AuthType
  pub consumers : Option (List Consumer)
  pub routes : Option (List (Option (List Text)))

pub record ProxyRouter : Type 0 where
  pub clusters : List Cluster
  pub prefix_map : List (Text × ℕ)
  pub consumers : Option (List Consumer)

-- `self.clusters[idx]`.
abbrev pub cluster_at : List Cluster → ℕ → Outcome Cluster
cluster_at [] i = panic
cluster_at (c ∷ cs) zero = ok c
cluster_at (c ∷ cs) (suc i) = cluster_at cs i

abbrev pub any_route : Text → List (Option (List Text)) → Bool
any_route path [] = false
any_route path (none ∷ routes) = any_route path routes
any_route path (some paths ∷ routes) = if contains path paths then true else any_route path routes

module _ (parses : Text → Bool) (decode : Text → Text → Decoded) (limiter : RateLimiter) where
  open limiter use {Rate}

  -- What a request changes.
  pub record State : Type 0 where
    pub session : Session
    pub ctx : RouterCtx
    pub rate : Rate

  -- A handler's answer: the request ends here, or goes on.
  abbrev pub Handled : Type 0
  Handled = State × Bool

  -- `match result { true => return Ok(true), false => () }`.
  infixl 5 ◌and_then◌
  abbrev pub ◌and_then◌ : Handled → (State → Handled) → Handled
  (st, true) and_then next = (st, true)
  (st, false) and_then next = next st

  abbrev pub in_session : State → Session × Bool → Handled
  in_session st (s, stop) = (record st { session = s }, stop)

  abbrev pub in_rate : State → (Rate × Session) × Bool → Handled
  in_rate st ((rate, s), stop) = (record st { session = s; rate = rate }, stop)

  abbrev pub in_ctx : State → Session × (RouterCtx × Bool) → Handled
  in_ctx st (s, (ctx, stop)) = (record st { session = s; ctx = ctx }, stop)

  abbrev pub restricted : Option (List Text) → Text → State → Handled
  restricted none address st = (st, false)
  restricted (some whitelist) address st =
      if contains address whitelist
      then (st, false)
      else (record st { session = error_response st.session 403 restricted_ip_address }, true)

  abbrev pub with_address : State → Option Text → State
  with_address st address = record st { ctx = record st.ctx { client_address = address } }

  abbrev pub check_address : Cluster → Option Text → State → Handled
  check_address cluster none st = (st, false)
  check_address cluster (some address) st =
      restricted cluster.whitelist address (with_address st (some address))

  abbrev pub with_credentials : Option Text → State → State
  with_credentials none st = st
  with_credentials (some credential) st = record st {
    ctx = record st.ctx { client_credentials = some credential };
  }

  unfoldable pub limit_global : Option Isize → State → Handled
  unfolding global_limiter
  limit_global none st = (st, false)
  limit_global (some limit) st = in_rate st (global_limiter limiter limit st.session st.ctx st.rate)

  unfoldable pub limit_client : Option Isize → State → Handled
  unfolding client_limiter
  limit_client none st = (st, false)
  limit_client (some limit) st = in_rate st (client_limiter limiter limit st.session st.ctx st.rate)

  unfoldable pub authenticate : Option (List Consumer) → Cluster → Option AuthType → State → Handled
  unfolding basic_key basic_jwt
  authenticate defined cluster none st = (st, false)
  authenticate defined cluster (some (key_auth key)) st = in_session st (basic_key key st.session)
  authenticate defined cluster (some (jwt_auth jwt)) st =
      in_session st (basic_jwt decode defined cluster.consumers jwt st.session)
  authenticate defined cluster (some external) st = (st, false)

  abbrev pub match_routes : Option (List (Option (List Text))) → State → State
  match_routes none st = st
  match_routes (some routes) st = record st {
    ctx = record st.ctx { enable_endpoint = any_route st.session.path routes };
  }

  -- What follows once the cluster is known.
  unfoldable pub filter_cluster : ProxyRouter → Cluster → State → Handled
  unfolding get_client_ip limit_global limit_client authenticate
  filter_cluster router cluster st =
      check_address cluster (get_client_ip st.session)
        (record st { ctx = record st.ctx { cluster_identity = some cluster.name } })
      and_then (λ st1. (with_credentials (visible_of st1.session.authorization) st1, false))
      and_then limit_global cluster.global
      and_then limit_client cluster.client
      and_then authenticate router.consumers cluster cluster.auth
      and_then (λ st2. (match_routes cluster.routes st2, false))

  unfoldable pub filter_at : ProxyRouter → State → Outcome Cluster → Outcome Handled
  unfolding filter_cluster
  filter_at router st (ok cluster) = ok (filter_cluster router cluster st)
  filter_at router st (err e) = err e
  filter_at router st panic = panic

  unfoldable pub filter_selected : ProxyRouter → Handled → Outcome Handled
  unfolding filter_at
  filter_selected router (st, true) = ok (st, true)
  filter_selected router (st, false) =
      filter_at router st (cluster_at router.clusters st.ctx.cluster_address)

  -- The end of a request on which an answer has panicked.
  abbrev pub settle : Outcome Handled → Outcome Handled
  settle (ok (st, stop)) = if st.session.client.has_panicked then panic else ok (st, stop)
  settle (err e) = err e
  settle panic = panic

  unfoldable pub request_filter : ProxyRouter → State → Outcome Handled
  unfolding select_cluster filter_selected
  request_filter router st =
      let ctx = record st.ctx { uri_origin = some st.session.uri } in
      settle (
        filter_selected router
          (in_ctx st (select_cluster parses router.prefix_map st.session.path st.session ctx)))

-- `unwrap_or`.
abbrev pub or_default : Option ℕ → ℕ → ℕ
or_default none d = d
or_default (some n) d = n

-- The context, and whether the error is marked to be retried.
unfoldable pub fail_to_connect : Cluster → RouterCtx → RouterCtx × Bool
fail_to_connect cluster ctx =
    if ltb (or_default cluster.retry 1) ctx.proxy_retry
    then (ctx, false)
    else (record ctx { proxy_retry = add_usize ctx.proxy_retry 1 }, true)
