-- ===== src/Gateway/Cluster/Builds.antt =====
-- glaive/src/cluster.rs: the clusters that are built are those of the configuration, and the map of
-- prefixes leads each prefix to its own.
use glaive.Prelude.{
  ℕ, zero, suc, ◌≡◌, refl, sym, ap, ◌∙◌, subst, Option, none, some, Bool, true, false, List, [],
  ◌∷◌, ◌++◌, map, ok, arith, Bool-cases, Option-cases, inl, inr, ◌⊎◌, length, length-append,
  append-nil, append_assoc,
}
use glaive.Text.{Text, same, eq_of_same}
use glaive.Gateway.Path.{find_prefix}
use glaive.Gateway.Proxy.Answers.{InRange}
use glaive.Gateway.Cluster.{
  ClusterConfig, cluster_of, insert_prefix, validate_cluster_config, validate_duplicated_prefix,
  build_service, Built, build_one, build_from, build_cluster,
}

abbrev pub config_at : List ClusterConfig → ℕ → Option ClusterConfig
config_at [] i = none
config_at (c ∷ cs) zero = some c
config_at (c ∷ cs) (suc i) = config_at cs i

insert_prefix-finds :
    (uri p q : Text) (i j : ℕ) (m : List (Text × ℕ))
    → find_prefix uri (insert_prefix p i m) ≡ some (q, j)
    → ((p ≡ q) × (i ≡ j)) ⊎ (find_prefix uri m ≡ some (q, j))
insert_prefix-finds uri p q i j [] e = elim (Bool-cases (same p uri)) [
  | inl t ↦ inl (ground (arith, t, e), ground (arith, t, e))
  | inr t ↦ absurd (ground (arith, t, e))
]
insert_prefix-finds uri p q i j ((r, k) ∷ m) e = elim (Bool-cases (same r p)) [
  | inl t ↦
      let is_p : r ≡ p = eq_of_same r p t in
      elim (Bool-cases (same p uri)) [
        | inl u ↦ inl (ground (arith, t, u, e), ground (arith, t, u, e))
        | inr u ↦ inr (rw (is_p, u) (ground (arith, t, u, e)))
      ]
  | inr t ↦ elim (Bool-cases (same r uri)) [
    | inl u ↦ inr (ground (arith, t, u, e))
    | inr u ↦ elim (insert_prefix-finds uri p q i j m (ground (arith, t, u, e))) [
      | inl here ↦ inl here
      | inr there ↦ inr (rw u there)
    ]
  ]
]

InRange-suc : (n : ℕ) (m : List (Text × ℕ)) → InRange n m → InRange (suc n) m
InRange-suc n [] range = tt
InRange-suc n ((q, j) ∷ m) (below, range) = (omega (arith, below), InRange-suc n m range)

insert_prefix-InRange :
    (p : Text) (n : ℕ) (m : List (Text × ℕ)) → InRange n m → InRange (suc n) (insert_prefix p n m)
insert_prefix-InRange p n [] range = (omega arith, tt)
insert_prefix-InRange p n ((q, j) ∷ m) (below, range) = elim (Bool-cases (same q p)) [
  | inl t ↦ rw t (omega arith, InRange-suc n m range)
  | inr t ↦ rw t (omega (arith, below), insert_prefix-InRange p n m range)
]

config_at-append :
    (a b : List ClusterConfig) (i : ℕ) (c : ClusterConfig)
    → config_at a i ≡ some c
    → config_at (a ++ b) i ≡ some c
config_at-append [] b i c e = absurd cc
config_at-append (d ∷ a) b zero c e = e
config_at-append (d ∷ a) b (suc i) c e = config_at-append a b i c e

config_at_end :
    (a : List ClusterConfig) (c : ClusterConfig) → config_at (a ++ (c ∷ [])) (length a) ≡ some c
config_at_end [] c = refl
config_at_end (d ∷ a) c = config_at_end a c

map-snoc :
    (a : List ClusterConfig) (c : ClusterConfig)
    → map cluster_of (a ++ (c ∷ [])) ≡ map cluster_of a ++ (cluster_of c ∷ [])
map-snoc [] c = refl
map-snoc (d ∷ a) c = ap (◌∷◌ (cluster_of d)) (map-snoc a c)

length-clusters : (a : List ClusterConfig) → length (map cluster_of a) ≡ length a
length-clusters [] = refl
length-clusters (c ∷ a) = ap suc (length-clusters a)

module _ (resolve : List Text → Bool) (discover : Text → Bool) where
  -- What is built from some configurations: their clusters in their order, and prefixes that lead
  -- into them, each to the cluster that was configured with it.
  pub record Routes (configs : List ClusterConfig) (built : Built resolve discover) : Type 0 where
    pub clusters_are : built.0 ≡ map cluster_of configs
    pub in_range : InRange (length configs) built.1
    pub leads :
        (uri p : Text) (i : ℕ)
        → find_prefix uri built.1 ≡ some (p, i)
        → (c : ClusterConfig) × ((config_at configs i ≡ some c) × (c.prefix ≡ some p))

  -- A configuration that is valid and whose service can be made.
  pub record Buildable (c : ClusterConfig) : Type 0 where
    pub valid : validate_cluster_config c ≡ true
    pub made : build_service resolve discover c.discovery c.upstream ≡ ok tt

  abbrev pub AllBuildable : List ClusterConfig → Type 0
  AllBuildable [] = Unit {0}
  AllBuildable (c ∷ cs) = Buildable c × AllBuildable cs

  pub valid-prefix :
      (c : ClusterConfig) → validate_cluster_config c ≡ true → (p : Text) × (c.prefix ≡ some p)
  unfolding validate_cluster_config
  valid-prefix c e = elim (Option-cases c.prefix) [
    | inl f ↦ absurd (ground (arith, f, e))
    | inr (p, f) ↦ (p, f)
  ]

  Routes-snoc :
      (configs : List ClusterConfig) (built : Built resolve discover) (c : ClusterConfig) (p : Text)
      → c.prefix ≡ some p
      → Routes configs built
      → Routes
          (configs ++ (c ∷ []))
          (built.0 ++ (cluster_of c ∷ []), insert_prefix p (length configs) built.1)
  Routes-snoc configs built c p e r = record {
    clusters_are = ap (λ w. w ++ (cluster_of c ∷ [])) r.clusters_are ∙ sym (map-snoc configs c);
    in_range =
        let count : length (configs ++ (c ∷ [])) ≡ suc (length configs) =
          length-append configs (c ∷ []) ∙ omega arith in
        rw count (insert_prefix-InRange p (length configs) built.1 r.in_range);
    leads = λ uri q i f. elim (insert_prefix-finds uri p q (length configs) i built.1 f) [
      | inl (is_p, is_i) ↦ (
        c,
        (
          subst (λ k. config_at (configs ++ (c ∷ [])) k ≡ some c) is_i (config_at_end configs c),
          e ∙ ap some is_p,
        ),
      )
      | inr g ↦
          let (d, (at, has)) = r.leads uri q i g in
          (d, (config_at-append configs (c ∷ []) i d at, has))
    ];
  }

  build_from-Routes :
      (before cs : List ClusterConfig) (built : Built resolve discover)
      → Routes before built
      → AllBuildable cs
      → (b : Built resolve discover) × ((build_from resolve discover (length before) cs built
            ≡ ok b)
          × Routes (before ++ cs) b)
  unfolding build_from build_one
  build_from-Routes before [] built r all =
      (built, (refl, subst (λ w. Routes w built) (sym (append-nil before)) r))
  build_from-Routes before (c ∷ cs) built r (one, all) =
      let (p, has) = valid-prefix c one.valid in
      let next : Built resolve discover =
        (built.0 ++ (cluster_of c ∷ []), insert_prefix p (length before) built.1) in
      let count : length (before ++ (c ∷ [])) ≡ suc (length before) =
        length-append before (c ∷ []) ∙ omega arith in
      let (b, (e, routes)) =
        build_from-Routes (before ++ (c ∷ [])) cs next (Routes-snoc before built c p has r) all in
      let step : build_one resolve discover (length before) c built ≡ ok next =
        ground (arith, one.valid, one.made, has) in
      (
        b,
        (
          rw step (subst (λ n. build_from resolve discover n cs next ≡ ok b) count e),
          subst (λ w. Routes w b) (append_assoc before (c ∷ []) cs) routes,
        ),
      )

  -- When the configurations have different prefixes, each is valid, and each has a service that can
  -- be made, `build_cluster` does not panic; it gives the clusters of the configurations in their
  -- order, and a map of prefixes whose indexes are in range, and which leads a path only to the
  -- cluster that was configured with the path's prefix.
  pub build_cluster-Routes :
      (configs : List ClusterConfig)
      → validate_duplicated_prefix configs ≡ false
      → AllBuildable configs
      → (b : Built resolve discover) × ((build_cluster resolve discover configs ≡ ok b)
          × Routes configs b)
  unfolding build_cluster
  build_cluster-Routes configs distinct all =
      let empty : Routes [] ([], []) = record {
        clusters_are = refl;
        in_range = tt;
        leads = λ uri p i f. absurd cc;
      } in
      let (b, (e, routes)) = build_from-Routes [] configs ([], []) empty all in
      (b, (rw distinct e, routes))
