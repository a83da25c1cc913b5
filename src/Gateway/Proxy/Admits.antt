-- ===== src/Gateway/Proxy/Admits.antt =====
-- glaive/src/proxy.rs: what holds of a request that the filter lets go on.
use glaive.Prelude.{
  ℕ, ◌≡◌, refl, sym, ap, ◌∙◌, subst, some, Bool, true, false, List, Outcome, ok, err, panic,
  Bool-cases, inl, inr, arith,
}
use glaive.Text.{Text, contains, remove_first}
use glaive.Gateway.Context.{Session, get_client_ip}
use glaive.Gateway.Path.{select_cluster, find_prefix, serialized_uri}
use glaive.Gateway.Auth.{Decoded}
use glaive.Gateway.Limiter.{RateLimiter}
use glaive.Gateway.Proxy.Selects.{or_root, select_cluster-Selects}
use glaive.Gateway.Proxy.{
  Cluster, ProxyRouter, cluster_at, State, Handled, check_address, in_ctx, filter_cluster,
  filter_at, filter_selected, settle, request_filter,
}
use glaive.Gateway.Auth.Authorized.{Authenticated}
use glaive.Gateway.Proxy.Keeps.{
  and_then_inv, and_then-Keeps, check_address-Keeps, check_address-allows, credentials-Keeps,
  limit_global-Keeps, limit_client-Keeps, authenticate-Authenticated, filter_cluster-Keeps,
}

module _ (parses : Text → Bool) (decode : Text → Text → Decoded) (limiter : RateLimiter) where
  -- A request that goes on to a cluster: its address is on the cluster's list, where there are
  -- both, and its credential passed the cluster's authentication.
  pub record Passes (router : ProxyRouter) (cluster : Cluster) (s : Session) : Type 0 where
    pub on_list :
        (address : Text) (whitelist : List Text)
        → get_client_ip s ≡ some address
        → cluster.whitelist ≡ some whitelist
        → contains address whitelist ≡ true
    pub authenticated :
        Authenticated decode router.consumers cluster.consumers s.authorization cluster.auth

  filter_cluster-Passes :
      (router : ProxyRouter) (cluster : Cluster) (st : State parses decode limiter)
      → (filter_cluster parses decode limiter router cluster st).1 ≡ false
      → Passes router cluster st.session
  unfolding filter_cluster
  filter_cluster-Passes router cluster st e =
      let st0 : State parses decode limiter = record st {
        ctx = record st.ctx { cluster_identity = some cluster.name };
      } in
      let h1 = check_address parses decode limiter cluster (get_client_ip st.session) st0 in
      let i5 = and_then_inv parses decode limiter _ _ e in
      let i4 = and_then_inv parses decode limiter _ _ i5.0 in
      let i3 = and_then_inv parses decode limiter _ _ i4.0 in
      let i2 = and_then_inv parses decode limiter _ _ i3.0 in
      let i1 = and_then_inv parses decode limiter _ _ i2.0 in
      let keeps =
        and_then-Keeps parses decode limiter st0 _ _
          (and_then-Keeps parses decode limiter st0 _ _
            (and_then-Keeps parses decode limiter st0 h1 _
              (check_address-Keeps parses decode limiter cluster (get_client_ip st.session) st0)
              (λ t. credentials-Keeps parses decode limiter _ t))
            (λ t. limit_global-Keeps parses decode limiter cluster.global t))
          (λ t. limit_client-Keeps parses decode limiter cluster.client t) i4.0 in
      record {
        on_list = λ address whitelist a w.
            check_address-allows parses decode limiter cluster address whitelist st0 w
              (subst (λ o. (check_address parses decode limiter cluster o st0).1 ≡ false) a i1.0);
        authenticated =
            subst
              (λ s.
                Authenticated decode router.consumers cluster.consumers s.authorization
                  cluster.auth)
              keeps
              (authenticate-Authenticated parses decode limiter router.consumers cluster
                cluster.auth _ i4.1);
      }

  -- The cluster of a request's first path segment, which it has passed.
  pub record Admits (router : ProxyRouter) (s s' : Session) : Type 0 where
    pub prefix : Text
    pub idx : ℕ
    pub cluster : Cluster
    pub found : find_prefix (serialized_uri s.path) router.prefix_map ≡ some (prefix, idx)
    pub at_idx : cluster_at router.clusters idx ≡ ok cluster
    pub passes : Passes router cluster s
    pub path_is : s'.path ≡ or_root (remove_first prefix s.path)
    pub uri_is : s'.uri ≡ or_root (remove_first prefix s.path)

  -- The same of the session that the selection has left.
  record Reached (router : ProxyRouter) (idx : ℕ) (s s' : Session) : Type 0 where
    cluster : Cluster
    at_idx : cluster_at router.clusters idx ≡ ok cluster
    passes : Passes router cluster s
    same : s' ≡ s

  filter_at-Reached :
      (router : ProxyRouter) (idx : ℕ) (st t : State parses decode limiter)
      (found : Outcome Cluster)
      → cluster_at router.clusters idx ≡ found
      → filter_at parses decode limiter router st found ≡ ok (t, false)
      → Reached router idx st.session t.session
  unfolding filter_at
  filter_at-Reached router idx st t (ok cluster) f e =
      let same : filter_cluster parses decode limiter router cluster st ≡ (t, false) = cc in
      let goes : (filter_cluster parses decode limiter router cluster st).1 ≡ false =
        ap (λ h. h.1) same in
      record {
        cluster = cluster;
        at_idx = f;
        passes = filter_cluster-Passes router cluster st goes;
        same =
            sym (ap (λ h. h.0.session) same)
            ∙ filter_cluster-Keeps parses decode limiter router cluster st goes;
      }
  filter_at-Reached router idx st t (err _) f e = absurd cc
  filter_at-Reached router idx st t panic f e = absurd cc

  filter_selected_inv :
      (router : ProxyRouter) (h : Handled parses decode limiter) (t : State parses decode limiter)
      → filter_selected parses decode limiter router h ≡ ok (t, false)
      → (h.1 ≡ false)
        × (filter_at parses decode limiter router h.0
              (cluster_at router.clusters h.0.ctx.cluster_address)
            ≡ ok (t, false))
  unfolding filter_selected
  filter_selected_inv router (u, true) t e = absurd cc
  filter_selected_inv router (u, false) t e = (refl, e)

  settle_inv :
      (o : Outcome (Handled parses decode limiter)) (h : Handled parses decode limiter)
      → settle parses decode limiter o ≡ ok h
      → o ≡ ok h
  settle_inv (ok (u, stop)) h e = elim (Bool-cases u.session.client.has_panicked) [
    | inl p ↦ absurd (ground (arith, e, p))
    | inr p ↦ ground (arith, e, p)
  ]
  settle_inv (err x) h e = absurd cc
  settle_inv panic h e = absurd cc

  -- When `request_filter` lets a request go on, the path's first segment is the prefix of a
  -- cluster; the client's address is on that cluster's whitelist, where there are both; the
  -- request's credential passed that cluster's authentication: an allowed key, or a valid token
  -- whose consumer is authorized, or no check for a cluster without one or with the external one;
  -- and the request's path and whole URI are the path without the prefix.
  pub request_filter-Admits :
      (router : ProxyRouter) (st t : State parses decode limiter)
      → request_filter parses decode limiter router st ≡ ok (t, false)
      → Admits router st.session t.session
  unfolding request_filter
  request_filter-Admits router st t e =
      let s = st.session in
      let ctx = record st.ctx { uri_origin = some s.uri } in
      let chosen = select_cluster parses router.prefix_map s.path s ctx in
      let h = in_ctx parses decode limiter st chosen in
      let (goes, at) = filter_selected_inv router h t (settle_inv _ _ e) in
      let sel = select_cluster-Selects parses router.prefix_map s.path s ctx goes in
      let address = ap (λ c. c.cluster_address) sel.ctx_is in
      let reached =
        filter_at-Reached router sel.idx h.0 t (cluster_at router.clusters h.0.ctx.cluster_address)
          (ap (cluster_at router.clusters) (sym address)) at in
      let passes = subst (Passes router reached.cluster) sel.session_is reached.passes in
      record {
        prefix = sel.prefix;
        idx = sel.idx;
        cluster = reached.cluster;
        found = sel.found;
        at_idx = reached.at_idx;
        passes = record { on_list = passes.on_list; authenticated = passes.authenticated };
        path_is = ap (λ x. x.path) (reached.same ∙ sel.session_is);
        uri_is = ap (λ x. x.uri) (reached.same ∙ sel.session_is);
      }
