-- ===== src/Tests/Clusters.antt =====
-- Two cluster configurations, tests of what is built of them, and an instance of the theorem.
use glaive.Prelude.{◌≡◌, refl, Option, none, some, Bool, true, false, List, [], ◌∷◌, ok, panic}
use glaive.Text.{Text, text}
use glaive.Gateway.Cluster.{
  ClusterConfig, Built, validate_cluster_config, validate_duplicated_prefix, build_one, build_from,
  build_cluster,
}
use glaive.Gateway.Cluster.Finds.{Finds, build_cluster-Finds}
use glaive.Gateway.Cluster.Builds.{Routes, Buildable, build_cluster-Routes}

abbrev config : Text → Option Text → ClusterConfig
config prefix discovery = record {
  name = some (text "one");
  prefix = some prefix;
  host = some (text "localhost");
  tls = some false;
  discovery = discovery;
  upstream = some (text "127.0.0.1:8001" ∷ []);
  whitelist = none;
  global = none;
  client = none;
  retry = none;
  auth = none;
  consumers = none;
  routes = none;
}

abbrev configs : List ClusterConfig
configs = config (text "/shop") none ∷ (config (text "/blog") (some (text "blog-service")) ∷ [])

abbrev all : Text → Bool
all t = true

abbrev resolves : List Text → Bool
resolves [] = false
resolves (t ∷ ts) = true

abbrev cluster_program : Unit {0}
unfolding validate_cluster_config validate_duplicated_prefix build_one build_from build_cluster
cluster_program = tt

one-Buildable : Buildable resolves all (config (text "/shop") none)
unfolding cluster_program
one-Buildable = record { valid = refl; made = refl }

two-Buildable : Buildable resolves all (config (text "/blog") (some (text "blog-service")))
unfolding cluster_program
two-Buildable = record { valid = refl; made = refl }

-- A prefix that ends with a slash, and one that stands twice.
slash_panics : build_cluster resolves all (config (text "/shop/") none ∷ []) ≡ panic
unfolding cluster_program
slash_panics = refl

twice_panics :
    build_cluster resolves all (config (text "/a") none ∷ (config (text "/a") none ∷ [])) ≡ panic
unfolding cluster_program
twice_panics = refl

build_cluster-Routes_example :
    (b : Built resolves all) × ((build_cluster resolves all configs ≡ ok b)
      × Routes resolves all configs b)
unfolding cluster_program
build_cluster-Routes_example =
    build_cluster-Routes resolves all configs refl (one-Buildable, (two-Buildable, tt))

build_cluster-Finds_example :
    (b : Built resolves all) × ((build_cluster resolves all configs ≡ ok b) × Finds configs b.1)
unfolding cluster_program
build_cluster-Finds_example =
    build_cluster-Finds resolves all configs refl (one-Buildable, (two-Buildable, tt))
