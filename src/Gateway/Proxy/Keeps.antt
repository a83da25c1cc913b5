-- ===== src/Gateway/Proxy/Keeps.antt =====
-- glaive/src/proxy.rs: a handler that lets a request go on leaves its session as it was.
use glaive.Prelude.{
  ◌≡◌, refl, ◌∙◌, Option, none, some, Bool, true, false, List, arith, Option-cases, inl, inr,
}
use glaive.Text.{Text, contains}
use glaive.Gateway.Context.{Isize, Session, get_client_ip}
use glaive.Gateway.Auth
use glaive.Gateway.Auth.{
  AuthType, Claims, Consumer, Decoded, Key, Jwt, basic_key, basic_jwt, find_consumer, share,
  cleaned,
}
use glaive.Gateway.Limiter.{RateLimiter, limited, global_limiter, client_limiter}
use glaive.Gateway.Proxy.{
  Cluster, ProxyRouter, State, Handled, ◌and_then◌, check_address, limit_global, limit_client,
  authenticate, match_routes, with_credentials, filter_cluster,
}
use glaive.Gateway.Auth.Authorized.{
  Authenticated, no_auth, unchecked, key-Authenticated, jwt-Authenticated, key_keeps, jwt_keeps,
}

module _ (parses : Text → Bool) (decode : Text → Text → Decoded) (limiter : RateLimiter) where
  -- A handler that lets a request go on leaves its session as it was.
  abbrev pub Keeps : State parses decode limiter → Handled parses decode limiter → Type 0
  Keeps st h = h.1 ≡ false → h.0.session ≡ st.session

  pub and_then_inv :
      (h : Handled parses decode limiter)
      (next : State parses decode limiter → Handled parses decode limiter)
      → (◌and_then◌ parses decode limiter h next).1 ≡ false
      → (h.1 ≡ false) × ((next h.0).1 ≡ false)
  and_then_inv (t, true) next e = absurd cc
  and_then_inv (t, false) next e = (refl, e)

  pub and_then-Keeps :
      (st : State parses decode limiter) (h : Handled parses decode limiter)
      (next : State parses decode limiter → Handled parses decode limiter)
      → Keeps st h
      → ((t : State parses decode limiter) → Keeps t (next t))
      → Keeps st (◌and_then◌ parses decode limiter h next)
  and_then-Keeps st (t, true) next a b e = absurd cc
  and_then-Keeps st (t, false) next a b e = b t e ∙ a refl

  pub check_address-Keeps :
      (cluster : Cluster) (address : Option Text) (st : State parses decode limiter)
      → Keeps st (check_address parses decode limiter cluster address st)
  check_address-Keeps cluster none st e = refl
  check_address-Keeps cluster (some address) st e = elim (Option-cases cluster.whitelist) [
    | inl f ↦ ground (arith, f)
    | inr (w, f) ↦ ground (arith, f, e)
  ]

  -- The address of a request that goes on is on the list, where there are both.
  pub check_address-allows :
      (cluster : Cluster) (address : Text) (whitelist : List Text)
      (st : State parses decode limiter)
      → cluster.whitelist ≡ some whitelist
      → (check_address parses decode limiter cluster (some address) st).1 ≡ false
      → contains address whitelist ≡ true
  check_address-allows cluster address whitelist st f e = ground (arith, f, e)

  pub credentials-Keeps :
      (credential : Option Text) (st : State parses decode limiter)
      → Keeps st (with_credentials parses decode limiter credential st, false)
  credentials-Keeps none st e = refl
  credentials-Keeps (some credential) st e = refl

  limited-Keeps :
      (limit : Isize) (s : Session) (key : Option Text) (rate : limiter.Rate)
      → (limited limiter limit s key rate).1 ≡ false
      → (limited limiter limit s key rate).0.1 ≡ s
  limited-Keeps limit s none rate e = refl
  limited-Keeps limit s (some key) rate e = ground (arith, e)

  pub limit_global-Keeps :
      (limit : Option Isize) (st : State parses decode limiter)
      → Keeps st (limit_global parses decode limiter limit st)
  unfolding limit_global global_limiter
  limit_global-Keeps none st e = refl
  limit_global-Keeps (some limit) st e =
      limited-Keeps limit st.session st.ctx.cluster_identity st.rate e

  pub limit_client-Keeps :
      (limit : Option Isize) (st : State parses decode limiter)
      → Keeps st (limit_client parses decode limiter limit st)
  unfolding limit_client client_limiter
  limit_client-Keeps none st e = refl
  limit_client-Keeps (some limit) st e = limited-Keeps limit st.session _ st.rate e

  pub authenticate-Authenticated :
      (defined : Option (List Consumer)) (cluster : Cluster) (auth : Option AuthType)
      (st : State parses decode limiter)
      → (authenticate parses decode limiter defined cluster auth st).1 ≡ false
      → Authenticated decode defined cluster.consumers st.session.authorization auth
  unfolding authenticate basic_key basic_jwt
  authenticate-Authenticated defined cluster none st e = no_auth
  authenticate-Authenticated defined cluster (some (Auth.key_auth key)) st e =
      key-Authenticated decode defined cluster.consumers key st.session st.session.authorization e
  authenticate-Authenticated defined cluster (some (Auth.jwt_auth jwt)) st e =
      jwt-Authenticated decode defined cluster.consumers jwt st.session st.session.authorization e
  authenticate-Authenticated defined cluster (some Auth.external) st e = unchecked

  pub authenticate-Keeps :
      (defined : Option (List Consumer)) (cluster : Cluster) (auth : Option AuthType)
      (st : State parses decode limiter)
      → Keeps st (authenticate parses decode limiter defined cluster auth st)
  unfolding authenticate basic_key basic_jwt
  authenticate-Keeps defined cluster none st e = refl
  authenticate-Keeps defined cluster (some (Auth.key_auth key)) st e =
      key_keeps key st.session st.session.authorization e
  authenticate-Keeps defined cluster (some (Auth.jwt_auth jwt)) st e =
      jwt_keeps decode defined cluster.consumers jwt st.session st.session.authorization e
  authenticate-Keeps defined cluster (some Auth.external) st e = refl

  pub routes-Keeps :
      (cluster : Cluster) (st : State parses decode limiter)
      → Keeps st (match_routes parses decode limiter cluster.routes st, false)
  routes-Keeps cluster st e = elim (Option-cases cluster.routes) [
    | inl f ↦ rw f refl
    | inr (routes, f) ↦ rw f refl
  ]

  pub filter_cluster-Keeps :
      (router : ProxyRouter) (cluster : Cluster) (st : State parses decode limiter)
      → Keeps st (filter_cluster parses decode limiter router cluster st)
  unfolding filter_cluster
  filter_cluster-Keeps router cluster st =
      and_then-Keeps st _ _
        (and_then-Keeps st _ _
          (and_then-Keeps st _ _
            (and_then-Keeps st _ _
              (and_then-Keeps st _ _
                (check_address-Keeps cluster (get_client_ip st.session)
                  (record st { ctx = record st.ctx { cluster_identity = some cluster.name } }))
                (λ t. credentials-Keeps _ t))
              (λ t. limit_global-Keeps cluster.global t))
            (λ t. limit_client-Keeps cluster.client t))
          (λ t. authenticate-Keeps router.consumers cluster cluster.auth t))
        (λ t. routes-Keeps cluster t)
