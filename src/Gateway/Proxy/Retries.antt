-- ===== src/Gateway/Proxy/Retries.antt =====
-- glaive/src/proxy.rs: how often a request is tried again.
use glaive.Prelude.{ℕ, zero, suc, ◌<◌, ◌≡◌, min, arith, usize_mod, ltb, leb, Bool-cases, inl, inr}
use glaive.Gateway.Context.{RouterCtx}
use glaive.Gateway.Proxy.{Cluster, or_default, fail_to_connect}

-- The context after that many failures to connect.
abbrev pub after_failures : ℕ → Cluster → RouterCtx → RouterCtx
unfolding fail_to_connect
after_failures zero cluster ctx = ctx
after_failures (suc n) cluster ctx = (fail_to_connect cluster (after_failures n cluster ctx)).0

after_failures-min :
    (n : ℕ) (cluster : Cluster) (ctx : RouterCtx)
    → ctx.proxy_retry ≡ 0
    → suc (or_default cluster.retry 1) < usize_mod
    → (after_failures n cluster ctx).proxy_retry ≡ min n (suc (or_default cluster.retry 1))
unfolding after_failures fail_to_connect
after_failures-min zero cluster ctx e small = ground (arith, e)
after_failures-min (suc n) cluster ctx e small =
    let before = after_failures-min n cluster ctx e small in
    elim (Bool-cases
      (ltb (or_default cluster.retry 1) (after_failures n cluster ctx).proxy_retry)) [
        | inl t ↦ ground (arith, before, t, small)
        | inr t ↦ ground (arith, before, t, small)
      ]

-- A request starts with no retries. Whatever number of retries is configured (1 where none is),
-- the failure after `n` others is to be retried exactly when `n` is at most that number: a request
-- is retried once more than configured.
pub fail_to_connect_retries :
    (n : ℕ) (cluster : Cluster) (ctx : RouterCtx)
    → ctx.proxy_retry ≡ 0
    → suc (or_default cluster.retry 1) < usize_mod
    → (fail_to_connect cluster (after_failures n cluster ctx)).1
      ≡ leb n (or_default cluster.retry 1)
unfolding fail_to_connect
fail_to_connect_retries n cluster ctx e small =
    ground (arith, after_failures-min n cluster ctx e small, small)
