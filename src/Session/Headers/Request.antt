-- ===== src/Session/Headers/Request.antt =====
-- core/src/session/request.rs: `RequestHeader`.
use glaive.Prelude.{Option, none, some, Outcome, ok, panic, ◌>>=◌, ◌++◌}
use glaive.Session.Offset.{Bytes}
use glaive.Session.Http.{Http, Version}
use glaive.Session.Headers
use glaive.Session.Headers.{
  HeaderKey, Fields, no_fields, empty_space, crlf, get_raw_version, write_fields,
}
use glaive.Text.{Text}

module _ (http : Http) where
  open http use {method_of, uri_of}

  pub record RequestHeader : Type 0 where
    pub method : Text
    pub uri : Text
    pub version : Version
    pub fields : Fields http
    pub raw_path : Bytes

  abbrev build_of : Option Text → Option Text → Bytes → Version → Outcome RequestHeader
  build_of none uri raw_path version = panic
  build_of (some method) none raw_path version = panic
  build_of (some method) (some uri) raw_path version = ok (record {
    method = method;
    uri = uri;
    version = version;
    fields = no_fields http;
    raw_path = raw_path;
  })

  unfoldable pub build : Text → Bytes → Version → Outcome RequestHeader
  build method raw_path version = build_of (method_of method) (uri_of raw_path) raw_path version

  abbrev with_fields : RequestHeader → Fields http → RequestHeader
  with_fields h f = record h { fields = f }

  unfoldable pub append_header : RequestHeader → HeaderKey → Option Bytes → Outcome RequestHeader
  unfolding Headers.append_header
  append_header h key value = do
    f ← Headers.append_header http h.fields key value
    ok (with_fields h f)

  unfoldable pub insert_header : RequestHeader → HeaderKey → Option Bytes → Outcome RequestHeader
  unfolding Headers.insert_header
  insert_header h key value = do
    f ← Headers.insert_header http h.fields key value
    ok (with_fields h f)

  unfoldable pub remove_header : RequestHeader → Text → RequestHeader
  unfolding Headers.remove_header
  remove_header h name = with_fields h (Headers.remove_header http h.fields name)

  unfoldable pub get_header : RequestHeader → Text → Option Bytes
  unfolding Headers.get_header
  get_header h name = Headers.get_header http h.fields name

  abbrev pub set_method : RequestHeader → Text → RequestHeader
  set_method h method = record h { method = method }

  abbrev pub set_uri : RequestHeader → Text → RequestHeader
  set_uri h uri = record h { uri = uri }

  abbrev pub set_version : RequestHeader → Version → RequestHeader
  set_version h version = record h { version = version }

  -- The request line has the raw path, not the URI.
  unfoldable pub build_to_buffer : RequestHeader → Outcome Bytes
  unfolding get_raw_version write_fields
  build_to_buffer h = do
    version ← get_raw_version h.version
    lines ← write_fields http h.fields
    ok (h.method ++ (empty_space ++ (h.raw_path ++ (empty_space ++ (version ++ (crlf ++ lines))))))
