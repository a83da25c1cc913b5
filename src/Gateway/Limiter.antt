-- ===== src/Gateway/Limiter.antt =====
-- glaive/src/limiter.rs: the limits on a cluster's requests and on a client's.
use glaive.Prelude.{Option, none, some, Bool, true, false, if◌then◌else◌}
use glaive.Text.{Text}
use glaive.Gateway.Context.{Isize, exceeds, Session, RouterCtx, reply_with, too_many_request}

-- `pingora_limits::rate::Rate` with its window: an observation counts itself.
pub record RateLimiter : Type 1 where
  pub Rate : Type 0
  pub observe : Rate → Text → Rate × Isize

-- `Option::or`.
abbrev pub or_address : Option Text → Option Text → Option Text
or_address none address = address
or_address (some credential) address = some credential

module _ (limiter : RateLimiter) where
  open limiter use {Rate, observe}

  abbrev pub limited : Isize → Session → Option Text → Rate → (Rate × Session) × Bool
  limited limit s none rate = ((rate, s), false)
  limited limit s (some key) rate =
      let observed = observe rate key in
      if exceeds observed.1 limit
      then ((observed.0, reply_with s 429 too_many_request (some limit)), true)
      else ((observed.0, s), false)

  unfoldable pub global_limiter : Isize → Session → RouterCtx → Rate → (Rate × Session) × Bool
  global_limiter limit s ctx rate = limited limit s ctx.cluster_identity rate

  unfoldable pub client_limiter : Isize → Session → RouterCtx → Rate → (Rate × Session) × Bool
  client_limiter limit s ctx rate =
      limited limit s (or_address ctx.client_credentials ctx.client_address) rate
