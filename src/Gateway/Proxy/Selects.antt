-- ===== src/Gateway/Proxy/Selects.antt =====
-- glaive/src/path.rs: what the selection of a cluster does to a request that goes on.
use glaive.Prelude.{
  ℕ, ◌≡◌, refl, sym, subst, Option, none, some, Bool, false, List, [], ◌∷◌, arith, Bool-cases, inl,
  inr,
}
use glaive.Text.{Text, text, remove_first}
use glaive.Gateway.Context.{Session, RouterCtx}
use glaive.Gateway.Path.{select_cluster, selected, set_modified, find_prefix, serialized_uri}

-- "/" stands for the empty path.
abbrev pub or_root : Text → Text
or_root [] = text "/"
or_root (c ∷ t) = c ∷ t

-- The prefix is the path's first segment, the cluster is the prefix's, and the request is as it
-- was but for its path, from which the prefix is gone, and its URI, which is that path.
pub record Selects (prefixes : List (Text × ℕ)) (uri : Text) (s : Session) (ctx : RouterCtx)
    (s' : Session) (ctx' : RouterCtx) : Type 0 where
  pub prefix : Text
  pub idx : ℕ
  pub found : find_prefix (serialized_uri uri) prefixes ≡ some (prefix, idx)
  pub session_is : s' ≡ record s {
    path = or_root (remove_first prefix uri);
    uri = or_root (remove_first prefix uri);
  }
  pub ctx_is : ctx' ≡ record ctx { cluster_address = idx }

module _ (parses : Text → Bool) where
  set_modified_passes :
      (s : Session) (t : Text)
      → (set_modified parses s t).1 ≡ false
      → (set_modified parses s t).0 ≡ record s { path = or_root t; uri = or_root t }
  set_modified_passes s [] e = refl
  set_modified_passes s (c ∷ t) e = ground (arith, e)

  selected-Selects :
      (prefixes : List (Text × ℕ)) (s : Session) (ctx : RouterCtx) (uri : Text)
      (found : Option (Text × ℕ))
      → find_prefix (serialized_uri uri) prefixes ≡ found
      → (selected parses s ctx uri found).1.1 ≡ false
      → Selects prefixes uri s ctx
          (selected parses s ctx uri found).0
          (selected parses s ctx uri found).1.0
  selected-Selects prefixes s ctx uri none f e = absurd cc
  selected-Selects prefixes s ctx uri (some (prefix, idx)) f e = record {
    prefix = prefix;
    idx = idx;
    found = f;
    session_is = set_modified_passes s (remove_first prefix uri) e;
    ctx_is = refl;
  }

  pub select_cluster-Selects :
      (prefixes : List (Text × ℕ)) (uri : Text) (s : Session) (ctx : RouterCtx)
      → (select_cluster parses prefixes uri s ctx).1.1 ≡ false
      → Selects prefixes uri s ctx
          (select_cluster parses prefixes uri s ctx).0
          (select_cluster parses prefixes uri s ctx).1.0
  unfolding select_cluster
  select_cluster-Selects prefixes uri s ctx e = elim (Bool-cases (parses uri)) [
    | inl p ↦
        let found = find_prefix (serialized_uri uri) prefixes in
        let same : select_cluster parses prefixes uri s ctx ≡ selected parses s ctx uri found =
          rw p refl in
        subst (λ r. Selects prefixes uri s ctx r.0 r.1.0) (sym same)
          (selected-Selects prefixes s ctx uri found refl (subst (λ r. r.1.1 ≡ false) same e))
    | inr p ↦ absurd (ground (arith, p, e))
  ]
