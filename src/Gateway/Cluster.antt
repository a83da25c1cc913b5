-- ===== src/Gateway/Cluster.antt =====
-- glaive/src/cluster.rs: the clusters and the map of their prefixes, from the configuration. The
-- caches, the health checks and the background services are left out.
pub mod Builds
pub mod Finds
use glaive.Prelude.{
  ℕ, zero, suc, Option, none, some, Bool, true, false, not, ◌&&◌, ◌||◌, List, [], ◌∷◌, ◌++◌,
  Outcome, ok, err, panic, ◌>>=◌, unwrap, ◌==◌, if◌then◌else◌,
}
use glaive.Text.{Text, text, same, slash}
use glaive.Gateway.Context.{Isize}
use glaive.Gateway.Auth.{AuthType, Consumer}
use glaive.Gateway.Proxy.{Cluster}

-- `discovery` is the name of the Consul service, where there is one.
pub record ClusterConfig : Type 0 where
  pub name : Option Text
  pub prefix : Option Text
  pub host : Option Text
  pub tls : Option Bool
  pub discovery : Option Text
  pub upstream : Option (List Text)
  pub whitelist : Option (List Text)
  pub global : Option Isize
  pub client : Option Isize
  pub retry : Option ℕ
  pub auth : Option AuthType
  pub consumers : Option (List Consumer)
  pub routes : Option (List (Option (List Text)))

abbrev pub is_none {ℓ} : {A : Type ℓ} → Option A → Bool
is_none none = true
is_none (some a) = false

abbrev pub starts_with_slash : Text → Bool
starts_with_slash [] = false
starts_with_slash (c ∷ t) = c == slash

abbrev pub ends_with_slash : Text → Bool
ends_with_slash [] = false
ends_with_slash (c ∷ []) = c == slash
ends_with_slash (c ∷ (d ∷ t)) = ends_with_slash (d ∷ t)

abbrev pub is_empty_list {ℓ} : {A : Type ℓ} → List A → Bool
is_empty_list [] = true
is_empty_list (a ∷ as') = false

abbrev pub prefix_is_valid : Option Text → Bool
prefix_is_valid none = true
prefix_is_valid (some prefix) =
    not (is_empty_list prefix || (not (starts_with_slash prefix) || ends_with_slash prefix))

-- The loop over `&config.upstream` goes over the option: it looks at the list once.
abbrev pub upstream_is_valid : Option (List Text) → Bool
upstream_is_valid none = true
upstream_is_valid (some upstream) = not (is_empty_list upstream)

unfoldable pub validate_cluster_config : ClusterConfig → Bool
validate_cluster_config c =
    if is_none c.name || (is_none c.prefix || (is_none c.host || is_none c.tls))
    then false
    else prefix_is_valid c.prefix && upstream_is_valid c.upstream

-- A set of optional prefixes, as a list.
abbrev pub same_prefix : Option Text → Option Text → Bool
same_prefix none none = true
same_prefix none (some q) = false
same_prefix (some p) none = false
same_prefix (some p) (some q) = same p q

abbrev pub seen_before : Option Text → List (Option Text) → Bool
seen_before p [] = false
seen_before p (q ∷ seen) = if same_prefix p q then true else seen_before p seen

abbrev pub duplicated_from : List (Option Text) → List ClusterConfig → Bool
duplicated_from seen [] = false
duplicated_from seen (c ∷ cs) =
    let rest = duplicated_from (c.prefix ∷ seen) cs in
    if seen_before c.prefix seen then true else rest

unfoldable pub validate_duplicated_prefix : List ClusterConfig → Bool
validate_duplicated_prefix clusters = duplicated_from [] clusters

abbrev pub or_text : Option Text → Text → Text
or_text none t = t
or_text (some s) t = s

abbrev pub cluster_of : ClusterConfig → Cluster
cluster_of c = record {
  name = or_text c.name (text "unnamed-cluster");
  whitelist = c.whitelist;
  global = c.global;
  client = c.client;
  retry = c.retry;
  auth = c.auth;
  consumers = c.consumers;
  routes = c.routes;
}

-- `HashMap::insert`.
abbrev pub insert_prefix : Text → ℕ → List (Text × ℕ) → List (Text × ℕ)
insert_prefix p i [] = (p, i) ∷ []
insert_prefix p i ((q, j) ∷ m) = if same q p then (p, i) ∷ m else (q, j) ∷ insert_prefix p i m

-- `resolve` says whether the load balancer is made of the upstreams, and `discover` whether Consul
-- makes one for a service.
module _ (resolve : List Text → Bool) (discover : Text → Bool) where
  abbrev pub if_made : Bool → Outcome (Unit {0})
  if_made true = ok tt
  if_made false = panic

  abbrev pub build_service : Option Text → Option (List Text) → Outcome (Unit {0})
  build_service (some service) upstream = if_made (discover service)
  build_service none none = panic
  build_service none (some upstream) = if_made (resolve upstream)

  abbrev pub Built : Type 0
  Built = List Cluster × List (Text × ℕ)

  -- One round of the loop, with what is built so far.
  unfoldable pub build_one : ℕ → ClusterConfig → Built → Outcome Built
  unfolding validate_cluster_config
  build_one idx c (clusters, prefix_map) =
      if validate_cluster_config c
      then (build_service c.discovery c.upstream >>= λ _. unwrap c.prefix >>= λ p.
          ok (clusters ++ (cluster_of c ∷ []), insert_prefix p idx prefix_map))
      else panic

  unfoldable pub build_from : ℕ → List ClusterConfig → Built → Outcome Built
  unfolding build_one
  build_from idx [] built = ok built
  build_from idx (c ∷ cs) built = build_one idx c built >>= build_from (suc idx) cs

  unfoldable pub build_cluster : List ClusterConfig → Outcome Built
  unfolding validate_duplicated_prefix build_from
  build_cluster configs =
      if validate_duplicated_prefix configs then panic else build_from 0 configs ([], [])
