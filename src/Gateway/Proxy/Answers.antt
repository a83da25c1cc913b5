-- ===== src/Gateway/Proxy/Answers.antt =====
-- glaive/src/proxy.rs: a request that the filter ends is answered exactly once, and one that goes
-- on has not been answered.
use glaive.Prelude.{
  if◌then◌else◌, length, zero, suc, ◌<◌, ap, ℕ, ◌≡◌, refl, ◌∙◌, sym, subst, Option, none, some,
  Bool, true, false, List, [], ◌∷◌, Outcome, ok, err, panic, arith, Bool-cases, Option-cases, inl,
  inr,
}
use glaive.Text.{same, Text, contains}
use glaive.Gateway.Context.{Isize, Reply, takes, get_client_ip}
use glaive.Gateway.Path.{select_cluster, find_prefix}
use glaive.Gateway.Auth
use glaive.Gateway.Auth.{AuthType, Consumer, Decoded, Key, Jwt, basic_key, basic_jwt}
use glaive.Gateway.Limiter.{RateLimiter, global_limiter, client_limiter}
use glaive.Gateway.Proxy.{
  Cluster, ProxyRouter, cluster_at, State, Handled, ◌and_then◌, restricted, check_address,
  limit_global, limit_client, authenticate, match_routes, in_ctx, with_credentials, filter_cluster,
  filter_at, filter_selected, settle, request_filter,
}
use glaive.Gateway.Proxy.Selects.{select_cluster-Selects}
use glaive.Gateway.Proxy.Replies.{
  Replied, goes_on, ended, panicked, replied, Replied-then, select_cluster-Replied,
  check_key_header-Replied, check_jwt_header-Replied, limited-Replied,
}

-- The indexes of the prefixes are below a bound.
abbrev pub InRange : ℕ → List (Text × ℕ) → Type 0
InRange n [] = Unit {0}
InRange n ((prefix, idx) ∷ prefixes) = (idx < n) × InRange n prefixes

module _ (parses : Text → Bool) (decode : Text → Text → Decoded) (limiter : RateLimiter) where
  -- The same of a handler's answer.
  abbrev pub Answers : State parses decode limiter → Handled parses decode limiter → Type 0
  Answers st h = Replied st.session h.0.session h.1

  and_then-Answers :
      (st : State parses decode limiter) (h : Handled parses decode limiter)
      (next : State parses decode limiter → Handled parses decode limiter)
      → Answers st h
      → ((t : State parses decode limiter) → Answers t (next t))
      → Answers st (◌and_then◌ parses decode limiter h next)
  and_then-Answers st (t, true) next a b = a
  and_then-Answers st (t, false) next (goes_on _ e c) b =
      Replied-then st.session t.session _ _ e c (b t)

  restricted-Answers :
      (whitelist : Option (List Text)) (address : Text) (st : State parses decode limiter)
      → Answers st (restricted parses decode limiter whitelist address st)
  restricted-Answers none address st = goes_on _ refl refl
  restricted-Answers (some whitelist) address st = elim (Bool-cases (contains address whitelist)) [
    | inl e ↦ rw e (goes_on _ refl refl)
    | inr e ↦ rw e (replied _ _ _ _)
  ]

  check_address-Answers :
      (cluster : Cluster) (address : Option Text) (st : State parses decode limiter)
      → Answers st (check_address parses decode limiter cluster address st)
  check_address-Answers cluster none st = goes_on _ refl refl
  check_address-Answers cluster (some address) st =
      restricted-Answers cluster.whitelist address
        (record st { ctx = record st.ctx { client_address = some address } })

  limit_global-Answers :
      (limit : Option Isize) (st : State parses decode limiter)
      → Answers st (limit_global parses decode limiter limit st)
  unfolding limit_global global_limiter
  limit_global-Answers none st = goes_on _ refl refl
  limit_global-Answers (some limit) st =
      limited-Replied limiter limit st.session st.ctx.cluster_identity st.rate

  limit_client-Answers :
      (limit : Option Isize) (st : State parses decode limiter)
      → Answers st (limit_client parses decode limiter limit st)
  unfolding limit_client client_limiter
  limit_client-Answers none st = goes_on _ refl refl
  limit_client-Answers (some limit) st = limited-Replied limiter limit st.session _ st.rate

  authenticate-Answers :
      (defined : Option (List Consumer)) (cluster : Cluster) (auth : Option AuthType)
      (st : State parses decode limiter)
      → Answers st (authenticate parses decode limiter defined cluster auth st)
  unfolding authenticate basic_key basic_jwt
  authenticate-Answers defined cluster none st = goes_on _ refl refl
  authenticate-Answers defined cluster (some (Auth.key_auth key)) st =
      check_key_header-Replied key st.session st.session.authorization
  authenticate-Answers defined cluster (some (Auth.jwt_auth jwt)) st =
      check_jwt_header-Replied decode defined cluster.consumers jwt st.session
        st.session.authorization
  authenticate-Answers defined cluster (some Auth.external) st = goes_on _ refl refl

  credentials-Answers :
      (credential : Option Text) (st : State parses decode limiter)
      → Answers st (with_credentials parses decode limiter credential st, false)
  credentials-Answers none st = goes_on _ refl refl
  credentials-Answers (some credential) st = goes_on _ refl refl

  routes-Answers :
      (cluster : Cluster) (st : State parses decode limiter)
      → Answers st (match_routes parses decode limiter cluster.routes st, false)
  routes-Answers cluster st = elim (Option-cases cluster.routes) [
    | inl e ↦ rw e (goes_on _ refl refl)
    | inr (routes, e) ↦ rw e (goes_on _ refl refl)
  ]

  filter_cluster-Answers :
      (router : ProxyRouter) (cluster : Cluster) (st : State parses decode limiter)
      → Answers st (filter_cluster parses decode limiter router cluster st)
  unfolding filter_cluster
  filter_cluster-Answers router cluster st =
      and_then-Answers st _ _
        (and_then-Answers st _ _
          (and_then-Answers st _ _
            (and_then-Answers st _ _
              (and_then-Answers st _ _
                (check_address-Answers cluster (get_client_ip st.session)
                  (record st { ctx = record st.ctx { cluster_identity = some cluster.name } }))
                (λ t. credentials-Answers _ t))
              (λ t. limit_global-Answers cluster.global t))
            (λ t. limit_client-Answers cluster.client t))
          (λ t. authenticate-Answers router.consumers cluster cluster.auth t))
        (λ t. routes-Answers cluster t)

  filter_at-Answers :
      (router : ProxyRouter) (st : State parses decode limiter) (found : Outcome Cluster)
      (h : Handled parses decode limiter)
      → filter_at parses decode limiter router st found ≡ ok h
      → Answers st h
  unfolding filter_at
  filter_at-Answers router st (ok cluster) h e =
      let same : filter_cluster parses decode limiter router cluster st ≡ h = cc in
      subst (Answers st) same (filter_cluster-Answers router cluster st)
  filter_at-Answers router st (err _) h e = absurd cc
  filter_at-Answers router st panic h e = absurd cc

  filter_selected-Answers :
      (router : ProxyRouter) (st : State parses decode limiter)
      (h h' : Handled parses decode limiter)
      → Answers st h
      → filter_selected parses decode limiter router h ≡ ok h'
      → Answers st h'
  unfolding filter_selected
  filter_selected-Answers router st (t, true) h' a e =
      let same : (t, true) ≡ h' = cc in subst (Answers st) same a
  filter_selected-Answers router st (t, false) h' (goes_on _ f c) e =
      Replied-then st.session t.session _ _ f c
        (filter_at-Answers router t (cluster_at router.clusters t.ctx.cluster_address) h' e)

  cluster_at-ok :
      (clusters : List Cluster) (i : ℕ)
      → i < length clusters
      → (cluster : Cluster) × (cluster_at clusters i ≡ ok cluster)
  cluster_at-ok [] i h = absurd (omega arith)
  cluster_at-ok (c ∷ cs) zero h = (c, refl)
  cluster_at-ok (c ∷ cs) (suc i) h = cluster_at-ok cs i (omega arith)

  find_prefix-InRange :
      (n : ℕ) (prefixes : List (Text × ℕ)) (uri prefix : Text) (idx : ℕ)
      → InRange n prefixes
      → find_prefix uri prefixes ≡ some (prefix, idx)
      → idx < n
  find_prefix-InRange n [] uri prefix idx range e = absurd cc
  find_prefix-InRange n ((p, i) ∷ prefixes) uri prefix idx (below, range) e =
      elim (Bool-cases (same p uri)) [
        | inl t ↦ let here : i ≡ idx = ground (arith, t, e) in omega (arith, below, here)
        | inr t ↦ find_prefix-InRange n prefixes uri prefix idx range (ground (arith, t, e))
      ]

  filter_selected-returns :
      (router : ProxyRouter) (h : Handled parses decode limiter)
      → (h.1 ≡ false → h.0.ctx.cluster_address < length router.clusters)
      → (h' : Handled parses decode limiter) × (filter_selected parses decode limiter router h
          ≡ ok h')
  unfolding filter_selected filter_at
  filter_selected-returns router (t, true) range = ((t, true), refl)
  filter_selected-returns router (t, false) range =
      let (cluster, e) = cluster_at-ok router.clusters t.ctx.cluster_address (range refl) in
      (filter_cluster parses decode limiter router cluster t, rw e refl)

  -- What the filter makes of a request: it goes on and nothing was written, or it is answered once
  -- and not kept alive, or the client does not take the answer.
  pub data Filtered (st : State parses decode limiter)
      : Outcome (Handled parses decode limiter) → Type 0 where
    passes :
        (t : State parses decode limiter)
        → t.session.replies ≡ st.session.replies
        → Filtered st (ok (t, false))
    answers :
        (t : State parses decode limiter) (reply : Reply)
        → t.session.replies ≡ reply ∷ st.session.replies
        → t.session.keepalive ≡ false
        → takes st.session.client ≡ true
        → Filtered st (ok (t, true))
    fails : takes st.session.client ≡ false → Filtered st panic

  not_panicked :
      (st : State parses decode limiter) (o : Outcome (Handled parses decode limiter))
      (has_panicked : Bool)
      → has_panicked ≡ false
      → Filtered st o
      → Filtered st (if has_panicked then panic else o)
  not_panicked st o true e f = absurd cc
  not_panicked st o false e f = f

  settle-Filtered :
      (st : State parses decode limiter) (h : Handled parses decode limiter)
      → st.session.client.has_panicked ≡ false
      → Answers st h
      → Filtered st (settle parses decode limiter (ok h))
  settle-Filtered st (t, false) fresh (goes_on _ e c) =
      not_panicked st _ _ (ap (λ x. x.has_panicked) c ∙ fresh) (passes t e)
  settle-Filtered st (t, true) fresh (ended _ reply e k c w) =
      not_panicked st _ _ (ap (λ x. x.has_panicked) c ∙ fresh) (answers t reply e k w)
  settle-Filtered st (t, true) fresh (panicked _ p w) = rw p (fails w)

  -- When the prefixes lead to clusters that are there, and the request has not panicked before,
  -- `request_filter` does one of three things: it lets the request go on, and has written nothing to
  -- the client; or it ends the request, has written exactly one answer to it and turned keep-alive
  -- off, which needs a client that takes what is written; or it panics, which needs a client that
  -- does not.
  pub request_filter-Answers :
      (router : ProxyRouter) (st : State parses decode limiter)
      → InRange (length router.clusters) router.prefix_map
      → st.session.client.has_panicked ≡ false
      → Filtered st (request_filter parses decode limiter router st)
  unfolding request_filter
  request_filter-Answers router st range fresh =
      let s = st.session in
      let ctx = record st.ctx { uri_origin = some s.uri } in
      let chosen = select_cluster parses router.prefix_map s.path s ctx in
      let (h, e) = filter_selected-returns router (in_ctx parses decode limiter st chosen) (λ goes.
        let sel = select_cluster-Selects parses router.prefix_map s.path s ctx goes in
        let address = ap (λ c. c.cluster_address) sel.ctx_is in
        rw address (
          find_prefix-InRange (length router.clusters) router.prefix_map _ sel.prefix sel.idx range
            sel.found)) in
      subst (λ o. Filtered st (settle parses decode limiter o)) (sym e)
        (settle-Filtered st h fresh (
          filter_selected-Answers router st _ h
            (select_cluster-Replied parses router.prefix_map s.path s ctx) e))
