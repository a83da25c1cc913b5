-- ===== src/Session/Headers.antt =====
-- core/src/session/request.rs, response.rs and case.rs: headers with the case of their names. A
-- header keeps two maps, of the values and of the names as they were written, and writes itself by
-- an iteration over both at once.
pub mod Request
pub mod Response
pub mod Entries
pub mod Aligned
pub mod Written
pub mod Inserts
use glaive.Prelude.{
  Option, none, some, List, [], ◌∷◌, ◌++◌, Outcome, ok, err, panic, ◌>>=◌, if◌then◌else◌,
}
use glaive.Session.Offset.{Bytes}
use glaive.Session.Http.{Http, Version, http09, http10, http11, http2, http3, first}
use glaive.Text.{Text, text, same}

-- What `IntoCaseHeaderName` takes: a name as it is written, or a name of the http crate.
pub data HeaderKey : Type 0 where
  cased : Bytes → HeaderKey
  named : Text → HeaderKey

abbrev pub titles : List (Text × Bytes)
titles =
    (text "age", text "Age")
    ∷ ((text "cache-control", text "Cache-Control")
        ∷ ((text "connection", text "Connection")
            ∷ ((text "content-type", text "Content-Type")
                ∷ ((text "content-encoding", text "Content-Encoding")
                    ∷ ((text "content-length", text "Content-Length")
                        ∷ ((text "date", text "Date")
                            ∷ ((text "transfer-encoding", text "Transfer-Encoding")
                                ∷ ((text "host", text "Host")
                                    ∷ ((text "server", text "Server")
                                        ∷ ((text "set-cookie", text "Set-Cookie") ∷ []))))))))))

abbrev pub title_in : List (Text × Bytes) → Text → Option Bytes
title_in [] name = none
title_in ((known, title) ∷ rest) name = if same known name then some title else title_in rest name

unfoldable pub titled_header_name_str : Text → Option Bytes
titled_header_name_str name = title_in titles name

abbrev pub title_or : Option Bytes → Text → Bytes
title_or (some title) name = title
title_or none name = name

unfoldable pub titled_header_name : Text → Bytes
unfolding titled_header_name_str
titled_header_name name = title_or (titled_header_name_str name) name

unfoldable pub into_case_header_name : HeaderKey → Bytes
unfolding titled_header_name
into_case_header_name (cased bs) = bs
into_case_header_name (named name) = titled_header_name name

abbrev pub crlf : Bytes
crlf = b'\r' ∷ b'\n' ∷ []

abbrev pub header_delimiter : Bytes
header_delimiter = b':' ∷ b' ' ∷ []

abbrev pub empty_space : Bytes
empty_space = b' ' ∷ []

-- One header's line.
abbrev pub line : Bytes → Bytes → Bytes
line title value = title ++ (header_delimiter ++ (value ++ crlf))

-- The zip of the two iterations, which ends with the shorter, and panics where the names differ.
unfoldable pub header_lines : List (Text × Bytes) → List (Text × Bytes) → Outcome Bytes
header_lines [] values = ok crlf
header_lines (c ∷ cases) [] = ok crlf
header_lines ((name, title) ∷ cases) ((name', value) ∷ values) =
    let rest = header_lines cases values in
    if same name name' then (do bs ← rest; ok (line title value ++ bs)) else panic

unfoldable pub get_raw_version : Version → Outcome Text
get_raw_version http09 = ok (text "HTTP/0.9")
get_raw_version http10 = ok (text "HTTP/1.0")
get_raw_version http11 = ok (text "HTTP/1.1")
get_raw_version http2 = ok (text "HTTP/2")
get_raw_version http3 = panic

module _ (http : Http) where
  open http use {maps, header_name}

  -- The two maps, which both headers have.
  pub record Fields : Type 0 where
    pub headers : maps.Map Bytes
    pub header_case : maps.Map Bytes

  abbrev pub no_fields : Fields
  no_fields = record { headers = maps.empty; header_case = maps.empty }

  abbrev pub append_to : Fields → Bytes → Option Text → Option Bytes → Outcome Fields
  append_to f title none value = panic
  append_to f title (some name) none = panic
  append_to f title (some name) (some value) = ok (record {
    headers = maps.append f.headers name value;
    header_case = maps.append f.header_case name title;
  })

  -- The value is what its conversion gave.
  unfoldable pub append_header : Fields → HeaderKey → Option Bytes → Outcome Fields
  unfolding into_case_header_name
  append_header f key value =
      let title = into_case_header_name key in append_to f title (header_name title) value

  abbrev pub insert_to : Fields → Bytes → Option Text → Option Bytes → Outcome Fields
  insert_to f title none value = panic
  insert_to f title (some name) none = panic
  insert_to f title (some name) (some value) = ok (record {
    headers = maps.insert f.headers name value;
    header_case = maps.insert f.header_case name title;
  })

  unfoldable pub insert_header : Fields → HeaderKey → Option Bytes → Outcome Fields
  unfolding into_case_header_name
  insert_header f key value =
      let title = into_case_header_name key in insert_to f title (header_name title) value

  unfoldable pub remove_header : Fields → Text → Fields
  remove_header f name = record {
    headers = maps.remove f.headers name;
    header_case = maps.remove f.header_case name;
  }

  unfoldable pub get_headers : Fields → Text → List Bytes
  get_headers f name = maps.get_all f.headers name

  unfoldable pub get_header : Fields → Text → Option Bytes
  get_header f name = first (maps.get_all f.headers name)

  unfoldable pub write_fields : Fields → Outcome Bytes
  unfolding header_lines
  write_fields f = header_lines (maps.iter f.header_case) (maps.iter f.headers)
