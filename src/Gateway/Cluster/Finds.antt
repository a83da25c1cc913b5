-- ===== src/Gateway/Cluster/Finds.antt =====
-- glaive/src/cluster.rs: every prefix of the configuration is found, and leads to its cluster.
use glaive.Prelude.{
  ℕ, zero, suc, ◌≡◌, refl, sym, ap, ◌∙◌, subst, Option, some, Bool, false, List, [], ◌∷◌, ◌++◌, ok,
  arith, Bool-cases, inl, inr, ◌⊎◌, length, length-append, append-nil, append_assoc,
}
use glaive.Text.{Text, same, same_self, eq_of_same}
use glaive.Gateway.Path.{find_prefix}
use glaive.Gateway.Cluster.{
  ClusterConfig, cluster_of, insert_prefix, same_prefix, seen_before, duplicated_from,
  validate_duplicated_prefix, Built, build_one, build_from, build_cluster,
}
use glaive.Gateway.Cluster.Builds.{config_at, AllBuildable, valid-prefix}

insert_prefix_self :
    (p : Text) (i : ℕ) (m : List (Text × ℕ)) → find_prefix p (insert_prefix p i m) ≡ some (p, i)
insert_prefix_self p i [] = rw (same_self p) refl
insert_prefix_self p i ((q, j) ∷ m) = elim (Bool-cases (same q p)) [
  | inl t ↦ rw (t, same_self p) refl
  | inr t ↦ rw (t, t) (insert_prefix_self p i m)
]

insert_prefix_other :
    (p q : Text) (i : ℕ) (m : List (Text × ℕ))
    → same p q ≡ false
    → find_prefix q (insert_prefix p i m) ≡ find_prefix q m
insert_prefix_other p q i [] ne = rw ne refl
insert_prefix_other p q i ((r, j) ∷ m) ne = elim (Bool-cases (same r p)) [
  | inl t ↦
      let is_p : r ≡ p = eq_of_same r p t in
      let not_q : same r q ≡ false = rw is_p ne in rw (t, ne, not_q) refl
  | inr t ↦ ground (arith, t, insert_prefix_other p q i m ne)
]

-- A configuration of a list with one more at the end.
config_at-snoc :
    (a : List ClusterConfig) (c d : ClusterConfig) (i : ℕ)
    → config_at (a ++ (c ∷ [])) i ≡ some d
    → (config_at a i ≡ some d) ⊎ ((i ≡ length a) × (c ≡ d))
config_at-snoc [] c d zero e = inr (refl, cc)
config_at-snoc [] c d (suc i) e = absurd cc
config_at-snoc (b ∷ a) c d zero e = inl e
config_at-snoc (b ∷ a) c d (suc i) e = elim (config_at-snoc a c d i e) [
  | inl f ↦ inl f
  | inr (f, g) ↦ inr (ap suc f, g)
]

-- Every prefix of the configurations is found at its place.
abbrev pub Finds : List ClusterConfig → List (Text × ℕ) → Type 0
Finds configs prefixes =
    (i : ℕ) (c : ClusterConfig) (p : Text)
    → config_at configs i ≡ some c
    → c.prefix ≡ some p
    → find_prefix p prefixes ≡ some (p, i)

-- A prefix that is not among those seen is none of the configurations'.
abbrev Covers : List ClusterConfig → List (Option Text) → Type 0
Covers configs seen =
    (i : ℕ) (c : ClusterConfig) (p : Option Text)
    → config_at configs i ≡ some c
    → seen_before p seen ≡ false
    → same_prefix p c.prefix ≡ false

Covers-snoc :
    (configs : List ClusterConfig) (seen : List (Option Text)) (c : ClusterConfig)
    → Covers configs seen
    → Covers (configs ++ (c ∷ [])) (c.prefix ∷ seen)
Covers-snoc configs seen c covers i d p e unseen = elim (Bool-cases (same_prefix p c.prefix)) [
  | inl t ↦ absurd (ground (arith, t, unseen))
  | inr t ↦ elim (config_at-snoc configs c d i e) [
    | inl f ↦ covers i d p f (ground (arith, t, unseen))
    | inr (f, g) ↦ subst (λ x. same_prefix p x.prefix ≡ false) g t
  ]
]

Finds-snoc :
    (configs : List ClusterConfig) (seen : List (Option Text)) (prefixes : List (Text × ℕ))
    (c : ClusterConfig) (p : Text)
    → c.prefix ≡ some p
    → seen_before (some p) seen ≡ false
    → Covers configs seen
    → Finds configs prefixes
    → Finds (configs ++ (c ∷ [])) (insert_prefix p (length configs) prefixes)
Finds-snoc configs seen prefixes c p has unseen covers finds i d q e f =
    elim (config_at-snoc configs c d i e) [
      | inl g ↦
          let ne : same_prefix (some p) (some q) ≡ false =
            subst (λ o. same_prefix (some p) o ≡ false) f (covers i d (some p) g unseen) in
          insert_prefix_other p q (length configs) prefixes ne ∙ finds i d q g f
      | inr (at, is_d) ↦
          let q_is : some p ≡ some q = sym has ∙ (ap (λ x. x.prefix) is_d ∙ f) in
          let p_is : p ≡ q = cc in
          rw (at, sym p_is) (insert_prefix_self p (length configs) prefixes)
    ]

module _ (resolve : List Text → Bool) (discover : Text → Bool) where
  build_from-Finds :
      (before cs : List ClusterConfig) (seen : List (Option Text)) (built : Built resolve discover)
      → Covers before seen
      → Finds before built.1
      → duplicated_from seen cs ≡ false
      → AllBuildable resolve discover cs
      → (b : Built resolve discover) × ((build_from resolve discover (length before) cs built
            ≡ ok b)
          × Finds (before ++ cs) b.1)
  unfolding build_from build_one
  build_from-Finds before [] seen built covers finds distinct all =
      (built, (refl, subst (λ w. Finds w built.1) (sym (append-nil before)) finds))
  build_from-Finds before (c ∷ cs) seen built covers finds distinct (one, all) =
      let (p, has) = valid-prefix resolve discover c one.valid in
      let next : Built resolve discover =
        (built.0 ++ (cluster_of c ∷ []), insert_prefix p (length before) built.1) in
      let count : length (before ++ (c ∷ [])) ≡ suc (length before) =
        length-append before (c ∷ []) ∙ omega arith in
      let unseen : seen_before c.prefix seen ≡ false = ground (arith, distinct) in
      let rest : duplicated_from (c.prefix ∷ seen) cs ≡ false = ground (arith, distinct) in
      let (b, (e, found)) =
        build_from-Finds (before ++ (c ∷ [])) cs (c.prefix ∷ seen) next
          (Covers-snoc before seen c covers)
          (Finds-snoc before seen built.1 c p has
            (subst (λ o. seen_before o seen ≡ false) has unseen) covers finds)
          rest all in
      let step : build_one resolve discover (length before) c built ≡ ok next =
        ground (arith, one.valid, one.made, has) in
      (
        b,
        (
          rw step (subst (λ n. build_from resolve discover n cs next ≡ ok b) count e),
          subst (λ w. Finds w b.1) (append_assoc before (c ∷ []) cs) found,
        ),
      )

  -- When the configurations have different prefixes, each is valid, and each has a service that can
  -- be made, `build_cluster` does not panic, and the prefix of every configuration is found in the
  -- map that it gives, with the place of that configuration.
  pub build_cluster-Finds :
      (configs : List ClusterConfig)
      → validate_duplicated_prefix configs ≡ false
      → AllBuildable resolve discover configs
      → (b : Built resolve discover) × ((build_cluster resolve discover configs ≡ ok b)
          × Finds configs b.1)
  unfolding build_cluster validate_duplicated_prefix
  build_cluster-Finds configs distinct all =
      let (b, (e, found)) =
        build_from-Finds [] configs [] ([], []) (λ i c p f g. absurd cc) (λ i c p f g. absurd cc)
          distinct all in
      (b, (rw distinct e, found))
