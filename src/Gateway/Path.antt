-- ===== src/Gateway/Path.antt =====
-- glaive/src/path.rs: the cluster that a request's path selects, and the path that is left.
use glaive.Prelude.{ℕ, Option, none, some, Bool, true, false, List, [], ◌∷◌, if◌then◌else◌}
use glaive.Text.{Text, text, same, slash, remove_first, split, not_empty}
use glaive.Gateway.Context.{
  Session, RouterCtx, error_response, invalid_path, path_does_not_exist, invalid_path_result,
}

-- "/" and the first segment that is not empty.
abbrev pub base_of : List Text → Text
base_of [] = slash ∷ []
base_of (base ∷ segments) = slash ∷ base

abbrev pub serialized_uri : Text → Text
serialized_uri uri = base_of (not_empty (split slash uri))

-- The prefixes are all different, so that the order of the map does not matter.
abbrev pub find_prefix : Text → List (Text × ℕ) → Option (Text × ℕ)
find_prefix uri [] = none
find_prefix uri ((prefix, idx) ∷ prefixes) =
    if same prefix uri then some (prefix, idx) else find_prefix uri prefixes

-- `parses` says whether the `http` crate reads a text as a URI.
module _ (parses : Text → Bool) where
  abbrev pub set_modified : Session → Text → Session × Bool
  set_modified s [] = (record s { path = text "/"; uri = text "/" }, false)
  set_modified s (c ∷ t) =
      if parses (c ∷ t)
      then (record s { path = c ∷ t; uri = c ∷ t }, false)
      else (error_response s 400 invalid_path_result, true)

  -- The session, the context, and whether the request ends here.
  abbrev pub selected :
      Session → RouterCtx → Text → Option (Text × ℕ) → Session × (RouterCtx × Bool)
  selected s ctx uri none = (error_response s 404 path_does_not_exist, (ctx, true))
  selected s ctx uri (some (prefix, idx)) =
      let set = set_modified s (remove_first prefix uri) in
      (set.0, (record ctx { cluster_address = idx }, set.1))

  unfoldable pub select_cluster :
      List (Text × ℕ) → Text → Session → RouterCtx → Session × (RouterCtx × Bool)
  select_cluster prefix_map original_uri s ctx =
      if parses original_uri
      then selected s ctx original_uri (find_prefix (serialized_uri original_uri) prefix_map)
      else (error_response s 400 invalid_path, (ctx, true))
