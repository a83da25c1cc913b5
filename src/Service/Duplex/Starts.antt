-- ===== src/Service/Duplex/Starts.antt =====
-- core/src/service/proxy/duplex.rs, `handle_process`: a client that says nothing.
use glaive.Prelude.{ℕ, suc, ◌≡◌, refl, some, none, [], ok, panic, arith}
use glaive.Session.Platform.{Platform}
use glaive.Session.Heads.{read_head}
use glaive.Session.Downstream.{Downstream}
use glaive.Session.Downstream.Opening.{read_request}
use glaive.Session.Upstream.{Upstream}
use glaive.Service.Duplex.{start_process}

module _ (net : Platform) where
  read_closed :
      (fuel : ℕ) (d : Downstream net) (s : net.io.Stream)
      → net.io.read d.stream (net.spare []) ≡ (s, ok [])
      → read_request net (suc fuel) d ≡ some (record d { stream = s; buffer = [] }, ok tt)
  unfolding read_request read_head
  read_closed fuel d s e = rw e refl

  -- A client that closes its connection before the first byte of a request is no error of the
  -- reading of the head, and the process panics where it takes the header.
  pub start_process-panics :
      (fuel : ℕ) (d : Downstream net) (u : Upstream net) (s : net.io.Stream)
      → d.request_header ≡ none
      → net.io.read d.stream (net.spare []) ≡ (s, ok [])
      → start_process net (suc fuel) d u ≡ some panic
  unfolding start_process
  start_process-panics fuel d u s none_yet e = ground (arith, read_closed fuel d s e, none_yet)
