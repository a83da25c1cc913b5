-- ===== src/Gateway/Filters/Sets.antt =====
-- glaive/src/proxy.rs: which headers a request and a response have behind the gateway's filters.
use glaive.Prelude.{
  ℕ, zero, suc, ◌+◌, ◌/◌, ◌%◌, ◌≡◌, refl, ap, ◌∙◌, subst, Option, none, some, true, List, [], ◌∷◌,
  ◌++◌, Outcome, ◌>>=◌, >>=_assoc, ltb, arith, Bool-cases, inl, inr, if◌then◌else◌,
}
use glaive.Session.Http.{to_lower}
use glaive.Text.{Text, text, same}
use glaive.Gateway.Filters.{
  Filter, GatewayHeaders, CachePhase, hit, miss, stale, expired, revalidated, revalidated_no_cache,
  deferred, other, CacheState, cache_status, enabled_status, disabled_status, decimal, is_token,
  is_visible, Map, filter_if, insert_text, with_lock_time, response_filter,
}
use glaive.Gateway.Filters.Configured.{
  Leaves, Converts, inserts_of, configured, get_inserted, filter_if-Leaves,
}

module _ (g : GatewayHeaders) where
  open g use {maps, token_name, visible_value}

  -- A header that the gateway sets itself.
  insert_text-Leaves :
      (r : Outcome (Map g)) (c : ℕ) (t value : Text) (expected : Text → List Text)
      → is_token (c ∷ t) ≡ true
      → is_visible value ≡ true
      → Leaves g r expected
      → Leaves g
          (do h ← r; insert_text g h (c ∷ t) value)
          (λ name. if same (to_lower (c ∷ t)) name then value ∷ [] else expected name)
  insert_text-Leaves r c t value expected token visible l = record {
    after = maps.insert l.after (to_lower (c ∷ t)) value;
    leaves = rw l.leaves (rw (token_name c t token, visible_value value visible) refl);
    values = λ name.
        get_inserted g l.after (to_lower (c ∷ t)) value name
        ∙ ap (λ vs. if same (to_lower (c ∷ t)) name then value ∷ [] else vs) (l.values name);
  }

  enabled_status-visible : (phase : CachePhase) → is_visible (enabled_status phase) ≡ true
  enabled_status-visible hit = refl
  enabled_status-visible miss = refl
  enabled_status-visible stale = refl
  enabled_status-visible expired = refl
  enabled_status-visible revalidated = refl
  enabled_status-visible revalidated_no_cache = refl
  enabled_status-visible deferred = refl
  enabled_status-visible other = refl

  disabled_status-visible : (phase : CachePhase) → is_visible (disabled_status phase) ≡ true
  disabled_status-visible hit = refl
  disabled_status-visible miss = refl
  disabled_status-visible stale = refl
  disabled_status-visible expired = refl
  disabled_status-visible revalidated = refl
  disabled_status-visible revalidated_no_cache = refl
  disabled_status-visible deferred = refl
  disabled_status-visible other = refl

  cache_status-visible : (cache : CacheState) → is_visible (cache_status cache) ≡ true
  cache_status-visible cache = elim (Bool-cases cache.enabled) [
    | inl e ↦ rw e (enabled_status-visible cache.phase)
    | inr e ↦ rw e (disabled_status-visible cache.phase)
  ]

  is_visible-append :
      (s t : Text) → is_visible s ≡ true → is_visible t ≡ true → is_visible (s ++ t) ≡ true
  is_visible-append [] t e f = f
  is_visible-append (c ∷ s) t e f = ground (arith, e, is_visible-append s t (ground (arith, e)) f)

  digit_visible : (n : ℕ) → is_visible ((48 + n % 10) ∷ []) ≡ true
  digit_visible n = ground arith

  decimal-visible : (fuel n : ℕ) → is_visible (decimal fuel n) ≡ true
  unfolding decimal
  decimal-visible zero n = digit_visible n
  decimal-visible (suc fuel) n = elim (Bool-cases (ltb n 10)) [
    | inl e ↦ ground (arith, e)
    | inr e ↦ rw e (
        is_visible-append (decimal fuel (n / 10)) ((48 + n % 10) ∷ [])
          (decimal-visible fuel (n / 10)) (digit_visible n))
  ]

  abbrev pub set : Text → Text → (Text → List Text) → Text → List Text
  set key value others name = if same key name then value ∷ [] else others name

  -- What the client finds under each name: the gateway's own headers, and else what the
  -- configuration leaves.
  abbrev pub answered : Option Filter → List (Text × Text) → CacheState → Map g → Text → List Text
  answered f ps cache h =
      let marked =
        set (text "x-cache-status") (cache_status cache)
          (set (text "server") (text "Glaive Gateway") (configured g f ps h)) in
      elim cache.lock_duration [
        | none ↦ marked
        | some millis ↦ set (text "x-cache-lock-time-ms") (decimal millis millis) marked
      ]

  locked-Leaves :
      (lock : Option ℕ) (r : Outcome (Map g)) (expected : Text → List Text)
      → Leaves g r expected
      → Leaves g
          (do h ← r; with_lock_time g lock h)
          (elim lock [
            | none ↦ expected
            | some millis ↦ set (text "x-cache-lock-time-ms") (decimal millis millis) expected
          ])
  locked-Leaves none r expected l = record {
    after = l.after;
    leaves = rw l.leaves refl;
    values = l.values;
  }
  locked-Leaves (some millis) r expected l =
      insert_text-Leaves r _ _ (decimal millis millis) expected refl (decimal-visible millis millis)
        l

  -- The configured insertions converting to names and values: the filter of responses succeeds, and
  -- leaves under each name exactly this. Server and x-cache-status have the gateway's own value, the
  -- status of the cache for the latter, and nothing of the server's or the configuration's;
  -- x-cache-lock-time-ms has the time in decimal where the cache waited for a lock. A name that is
  -- to be removed has nothing, even if it is to be inserted too, and any other name has the server's
  -- values and then the inserted ones.
  pub response_filter-Leaves :
      (f : Option Filter) (ps : List (Text × Text)) (cache : CacheState) (h : Map g)
      → Converts g (inserts_of f) ps
      → Leaves g (response_filter g f cache h) (answered f ps cache h)
  unfolding response_filter
  response_filter-Leaves f ps cache h c =
      subst (λ r. Leaves g r (answered f ps cache h))
        (>>=_assoc (filter_if g f h >>= server) status lock
          ∙ >>=_assoc (filter_if g f h) server (λ h2. status h2 >>= lock))
        (locked-Leaves cache.lock_duration _ _ (
          insert_text-Leaves (filter_if g f h >>= server) _ _ (cache_status cache) _ refl
            (cache_status-visible cache)
            (insert_text-Leaves (filter_if g f h) _ _ (text "Glaive Gateway") _ refl refl
              (filter_if-Leaves g f ps h c))))
    where
      server : Map g → Outcome (Map g)
      server h1 = insert_text g h1 (text "Server") (text "Glaive Gateway")

      status : Map g → Outcome (Map g)
      status h2 = insert_text g h2 (text "x-cache-status") (cache_status cache)

      lock : Map g → Outcome (Map g)
      lock h3 = with_lock_time g cache.lock_duration h3
