-- ===== src/Tests/Headers.antt =====
-- Tests of the headers, and instances of their theorems.
use glaive.Prelude.{◌≡◌, refl, ◌↔◌, ◌<◌, ◌^◌, none, some, List, [], ◌∷◌}
use glaive.Session.Headers.{
  Fields, cased, named, no_fields, append_header, insert_header, into_case_header_name,
  titled_header_name, titled_header_name_str, header_lines, write_fields,
}
use glaive.Session.Headers.Aligned.{Entry, Made, fresh, appended, inserted}
use glaive.Session.Headers.Written.{WrittenAs, Made-writes}
use glaive.Session.Headers.Inserts.{Inserts, insert_header-Inserts}
use glaive.Session.Lengths.{get_content_length_value, parse_i64, parse_unsigned, parse_digits}
use glaive.Session.Lengths.Decimal.{Numeral, get_content_length_value-Numeral}
use glaive.Tests.Platforms.{http}
use glaive.Text.{text}

abbrev one_field : Fields http
one_field = record {
  headers = (text "host", text "a") ∷ [];
  header_case = (text "host", text "hOSt") ∷ [];
}

abbrev two_fields : Fields http
two_fields = record {
  headers = (text "host", text "a") ∷ ((text "date", text "now") ∷ []);
  header_case = (text "host", text "hOSt") ∷ ((text "date", text "Date") ∷ []);
}

abbrev header_program : Unit {0}
unfolding append_header insert_header into_case_header_name titled_header_name
    titled_header_name_str header_lines write_fields
header_program = tt

-- A second value of a name in another case, which an insertion of the name has not removed.
abbrev three_fields : Fields http
three_fields = record {
  headers = (text "host", text "a") ∷ ((text "date", text "now") ∷ ((text "host", text "b") ∷ []));
  header_case =
      (text "host", text "hOSt") ∷ ((text "date", text "Date") ∷ ((text "host", text "HOST") ∷ []));
}

abbrev put_fields : List Entry
put_fields =
    (text "host", (text "hOSt", text "a"))
    ∷ ((text "date", (text "Date", text "now")) ∷ ((text "host", (text "HOST", text "b")) ∷ []))

three_fields-Made : Made http three_fields put_fields
unfolding header_program
three_fields-Made =
    appended two_fields three_fields _ (cased (text "HOST")) (text "host") (text "b")
      (inserted one_field two_fields _ (named (text "date")) (text "date") (text "now")
        (appended (no_fields http) one_field [] (cased (text "hOSt")) (text "host") (text "a") fresh
          refl refl)
        refl refl)
      refl refl

Made-writes_example : WrittenAs http three_fields put_fields
Made-writes_example = Made-writes http three_fields put_fields three_fields-Made

insert_header-Inserts_example :
    Inserts http one_field
      (text "host")
      (text "b")
      (insert_header http one_field (named (text "host")) (some (text "b")))
insert_header-Inserts_example = insert_header-Inserts http one_field (text "host") (text "b") refl

abbrev length_program : Unit {0}
unfolding get_content_length_value parse_i64 parse_unsigned parse_digits
length_program = tt

reads_plus : get_content_length_value (λ bs. some bs) (some (text "+12")) ≡ some 12
unfolding length_program
reads_plus = refl

refuses_two : get_content_length_value (λ bs. some bs) (some (text "12, 12")) ≡ none
unfolding length_program
refuses_two = refl

get_content_length_value-Numeral_example :
    (get_content_length_value (λ bs. some bs) (some (text "12")) ≡ some 12)
    ↔ (Numeral (text "12") 12 × (12 < 2 ^ 63))
get_content_length_value-Numeral_example =
    get_content_length_value-Numeral (λ bs. some bs) (text "12") (text "12") 12 refl
