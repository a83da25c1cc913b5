-- ===== src/Session/Headers/Inserts.antt =====
-- core/src/session/response.rs and case.rs: an inserted header is the one that is found.
use glaive.Prelude.{
  ◌≡◌, refl, ap, Option, none, some, Bool-cases, inl, inr, false, List, [], ◌∷◌, Outcome, ok, arith,
}
use glaive.Session.Offset.{Bytes}
use glaive.Session.Http.{Http, first, to_lower}
use glaive.Session.Headers.{
  Fields, named, titles, title_in, title_or, titled_header_name, titled_header_name_str,
  into_case_header_name, insert_to, insert_header, get_header, get_headers,
}
use glaive.Text.{Text, same, eq_of_same}

-- Each title is its name in another case.
abbrev AllTitled : List (Text × Bytes) → Type 0
AllTitled [] = Unit
AllTitled ((name, title) ∷ rest) = (to_lower title ≡ name) × AllTitled rest

titles-AllTitled : AllTitled titles
titles-AllTitled =
    (refl, (refl, (refl, (refl, (refl, (refl, (refl, (refl, (refl, (refl, (refl, tt)))))))))))

title_in-to_lower :
    (table : List (Text × Bytes)) (name title : Text)
    → AllTitled table
    → title_in table name ≡ some title
    → to_lower title ≡ name
title_in-to_lower [] name title all e = absurd cc
title_in-to_lower ((known, t) ∷ rest) name title all e = elim (Bool-cases (same known name)) [
  | inl s ↦ ground (arith, s, e, all, eq_of_same known name s)
  | inr s ↦ title_in-to_lower rest name title (ground (arith, all)) (ground (arith, s, e))
]

module _ (http : Http) where
  open http use {maps, header_name, any_case}

  title_or-valid :
      (name : Text) (title : Option Bytes)
      → title_in titles name ≡ title
      → header_name name ≡ some name
      → header_name (title_or title name) ≡ some name
  title_or-valid name none e valid = valid
  title_or-valid name (some title) e valid =
      any_case title name (rw (title_in-to_lower titles name title titles-AllTitled e) valid)

  -- What an insertion leaves to be found.
  pub record Inserts (f : Fields http) (name : Text) (value : Bytes) (r : Outcome (Fields http))
      : Type 0 where
    pub after : Fields http
    pub inserts : r ≡ ok after
    pub alone : get_headers http after name ≡ value ∷ []
    pub found : get_header http after name ≡ some value
    pub others :
        (other : Text)
        → same name other ≡ false
        → get_headers http after other ≡ get_headers http f other

  insert_to-Inserts :
      (f : Fields http) (title : Bytes) (key : Option Text) (name : Text) (value : Bytes)
      → key ≡ some name
      → Inserts f name value (insert_to http f title key (some value))
  unfolding get_header get_headers
  insert_to-Inserts f title none name value e = absurd cc
  insert_to-Inserts f title (some name') name value e =
      let is : name' ≡ name = cc in
      rw is (record {
        after = record {
          headers = maps.insert f.headers name value;
          header_case = maps.insert f.header_case name title;
        };
        inserts = refl;
        alone = maps.get_insert f.headers name value;
        found = ap first (maps.get_insert f.headers name value);
        others = λ other apart. maps.get_insert_other f.headers name other value apart;
      })

  -- A valid value that is inserted under a name of the http crate succeeds, whatever the case that
  -- the name is written in; it is then the only value of that name, and the values of other names
  -- are as before.
  pub insert_header-Inserts :
      (f : Fields http) (name : Text) (value : Bytes)
      → header_name name ≡ some name
      → Inserts f name value (insert_header http f (named name) (some value))
  unfolding insert_header titled_header_name titled_header_name_str into_case_header_name
  insert_header-Inserts f name value valid =
      insert_to-Inserts f (into_case_header_name (named name)) _ name value
        (title_or-valid name (title_in titles name) refl valid)
