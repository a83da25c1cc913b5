-- ===== src/Session/Headers/Response.antt =====
-- core/src/session/response.rs: `ResponseHeader`.
use glaive.Prelude.{ℕ, Option, none, some, Bool, true, false, Outcome, ok, panic, ◌>>=◌, ◌++◌, []}
use glaive.Session.Offset.{Bytes}
use glaive.Session.Http.{Http, Version}
use glaive.Session.Headers
use glaive.Session.Headers.{
  HeaderKey, Fields, no_fields, empty_space, crlf, get_raw_version, write_fields,
}
use glaive.Text.{Text, same}

module _ (http : Http) where
  open http use {status_of, canonical_reason, status_text}

  pub record ResponseHeader : Type 0 where
    pub status : ℕ
    pub version : Version
    pub fields : Fields http
    pub reason_phrase : Option Text

  abbrev build_of : Option ℕ → Version → Outcome ResponseHeader
  build_of none version = panic
  build_of (some status) version =
      ok (record {
        status = status;
        version = version;
        fields = no_fields http;
        reason_phrase = none;
      })

  unfoldable pub build : ℕ → Version → Outcome ResponseHeader
  build code version = build_of (status_of code) version

  abbrev with_fields : ResponseHeader → Fields http → ResponseHeader
  with_fields h f = record h { fields = f }

  unfoldable pub append_header : ResponseHeader → HeaderKey → Option Bytes → Outcome ResponseHeader
  unfolding Headers.append_header
  append_header h key value = do
    f ← Headers.append_header http h.fields key value
    ok (with_fields h f)

  unfoldable pub insert_header : ResponseHeader → HeaderKey → Option Bytes → Outcome ResponseHeader
  unfolding Headers.insert_header
  insert_header h key value = do
    f ← Headers.insert_header http h.fields key value
    ok (with_fields h f)

  unfoldable pub remove_header : ResponseHeader → Text → ResponseHeader
  unfolding Headers.remove_header
  remove_header h name = with_fields h (Headers.remove_header http h.fields name)

  unfoldable pub get_header : ResponseHeader → Text → Option Bytes
  unfolding Headers.get_header
  get_header h name = Headers.get_header http h.fields name

  abbrev pub set_version : ResponseHeader → Version → ResponseHeader
  set_version h version = record h { version = version }

  abbrev status_from : ResponseHeader → Option ℕ → Outcome ResponseHeader
  status_from h none = panic
  status_from h (some status) = ok (record h { status = status })

  unfoldable pub set_status_code : ResponseHeader → ℕ → Outcome ResponseHeader
  set_status_code h code = status_from h (status_of code)

  abbrev same_reason : Option Text → Option Text → Bool
  same_reason none none = true
  same_reason none (some b) = false
  same_reason (some a) none = false
  same_reason (some a) (some b) = same a b

  abbrev keep_reason : ResponseHeader → Option Text → Bool → ResponseHeader
  keep_reason h reason true = record h { reason_phrase = none }
  keep_reason h reason false = record h { reason_phrase = reason }

  unfoldable pub set_reason_phrase : ResponseHeader → Option Text → ResponseHeader
  set_reason_phrase h reason = keep_reason h reason (same_reason reason (canonical_reason h.status))

  abbrev reason_or : Option Text → Option Text → Option Text
  reason_or (some reason) other = some reason
  reason_or none other = other

  unfoldable pub get_reason_phrase : ResponseHeader → Option Text
  get_reason_phrase h = reason_or h.reason_phrase (canonical_reason h.status)

  abbrev reason_text : Option Text → Bytes
  reason_text none = []
  reason_text (some reason) = reason

  unfoldable pub build_to_buffer : ResponseHeader → Outcome Bytes
  unfolding get_raw_version write_fields get_reason_phrase
  build_to_buffer h = do
    version ← get_raw_version h.version
    lines ← write_fields http h.fields
    ok (
        version
        ++ (empty_space
            ++ (status_text h.status
                ++ (empty_space ++ (reason_text (get_reason_phrase h) ++ (crlf ++ lines))))))
