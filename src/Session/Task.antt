-- ===== src/Session/Task.antt =====
-- core/src/session/task.rs: what the two sessions of a proxied request tell each other.
use glaive.Prelude.{Option, Bool, true, IoError}
use glaive.Session.Offset.{Bytes}
use glaive.Session.Http.{Http}
use glaive.Session.Headers.Response.{ResponseHeader}

module _ (http : Http) where
  open http use {maps}

  pub data Task : Type 0 where
    header : ResponseHeader http → Bool → Task
    body : Option Bytes → Bool → Task
    trailer : Option (maps.Map Bytes) → Task
    done : Task
    failed : IoError → Task

  unfoldable pub is_end : Task → Bool
  is_end (header _ last) = last
  is_end (body _ last) = last
  is_end (trailer _) = true
  is_end done = true
  is_end (failed _) = true
