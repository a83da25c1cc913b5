-- ===== src/Session/Modes/Response.antt =====
-- core/src/session/upstream.rs, `set_response_body_reader`, and downstream.rs,
-- `set_response_body_writer`: a response is written on in the mode that it is read in.
use glaive.Prelude.{◌≡◌, some, ok}
use glaive.Session.Headers.Response.{ResponseHeader}
use glaive.Session.Reader.{BodyReader}
use glaive.Session.Writer.{BodyWriter}
use glaive.Session.Platform.{Platform}
use glaive.Session.Upstream.{Upstream}
use glaive.Session.Upstream.Responses.{set_response_body_reader}
use glaive.Session.Downstream.{Downstream}
use glaive.Session.Downstream.Responses.{set_response_body_writer}
use glaive.Session.Modes.{BodyMode, read_mode, write_mode}

module _ (net : Platform) where
  -- What the two sessions choose for a response.
  pub record Agree (u : Upstream net) (d : Downstream net) (h : ResponseHeader net.http)
      : Type 0 where
    pub reader : BodyReader
    pub writer : BodyWriter
    pub mode : BodyMode
    pub reads : set_response_body_reader net u ≡ (record u { body_reader = reader }, ok tt)
    pub writes : set_response_body_writer net d h ≡ ok writer
    pub reads_by : read_mode reader.read_state ≡ some mode
    pub writes_by : write_mode writer.write_state ≡ some mode
