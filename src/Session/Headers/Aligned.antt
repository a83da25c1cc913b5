-- ===== src/Session/Headers/Aligned.antt =====
-- core/src/session/request.rs, response.rs: the two maps of a header stay in step, and what they
-- hold of each name.
use glaive.Prelude.{◌≡◌, refl, Option, none, some, List, [], ◌∷◌, ◌++◌, ok}
use glaive.Session.Offset.{Bytes}
use glaive.Session.Http.{Http, names}
use glaive.Session.Headers.{
  HeaderKey, Fields, no_fields, into_case_header_name, append_to, append_header, insert_to,
  insert_header, remove_header,
}
use glaive.Session.Headers.Entries.{drop_name}
use glaive.Text.{Text}

-- A name, its written form, and a value.
abbrev pub Entry : Type 0
Entry = Text × (Bytes × Bytes)

module _ (http : Http) where
  open http use {maps, header_name}

  abbrev pub IsAligned : Fields http → Type 0
  IsAligned f = names (maps.iter f.header_case) ≡ names (maps.iter f.headers)

  -- The headers that the operations make, from none, and what was put under each name since it was
  -- last inserted or removed.
  pub data Made : Fields http → List Entry → Type 0 where
    fresh : Made (no_fields http) []
    appended :
        (f g : Fields http) (log : List Entry) (key : HeaderKey) (name : Text) (value : Bytes)
        → Made f log
        → header_name (into_case_header_name key) ≡ some name
        → append_header http f key (some value) ≡ ok g
        → Made g (log ++ ((name, (into_case_header_name key, value)) ∷ []))
    inserted :
        (f g : Fields http) (log : List Entry) (key : HeaderKey) (name : Text) (value : Bytes)
        → Made f log
        → header_name (into_case_header_name key) ≡ some name
        → insert_header http f key (some value) ≡ ok g
        → Made g (drop_name log name ++ ((name, (into_case_header_name key, value)) ∷ []))
    removed :
        (f : Fields http) (log : List Entry) (name : Text)
        → Made f log
        → Made (remove_header http f name) (drop_name log name)

  append_to-IsAligned :
      (f g : Fields http) (title : Bytes) (name : Option Text) (value : Option Bytes)
      → IsAligned f
      → append_to http f title name value ≡ ok g
      → IsAligned g
  append_to-IsAligned f g title none value a e = absurd cc
  append_to-IsAligned f g title (some name) none a e = absurd cc
  append_to-IsAligned f g title (some name) (some value) a e =
      let is : g ≡ record {
        headers = maps.append f.headers name value;
        header_case = maps.append f.header_case name title;
      } =
        cc in
      rw is (maps.append_names f.header_case f.headers name title value a)

  insert_to-IsAligned :
      (f g : Fields http) (title : Bytes) (name : Option Text) (value : Option Bytes)
      → IsAligned f
      → insert_to http f title name value ≡ ok g
      → IsAligned g
  insert_to-IsAligned f g title none value a e = absurd cc
  insert_to-IsAligned f g title (some name) none a e = absurd cc
  insert_to-IsAligned f g title (some name) (some value) a e =
      let is : g ≡ record {
        headers = maps.insert f.headers name value;
        header_case = maps.insert f.header_case name title;
      } =
        cc in
      rw is (maps.insert_names f.header_case f.headers name title value a)

  pub Made-IsAligned : (f : Fields http) (log : List Entry) → Made f log → IsAligned f
  unfolding append_header insert_header remove_header
  Made-IsAligned f _ fresh = rw (maps.iter_empty {V = Bytes}) refl
  Made-IsAligned g _ (appended f _ log key name value m valid e) =
      append_to-IsAligned f g (into_case_header_name key) (header_name (into_case_header_name key))
        (some value) (Made-IsAligned f log m) e
  Made-IsAligned g _ (inserted f _ log key name value m valid e) =
      insert_to-IsAligned f g (into_case_header_name key) (header_name (into_case_header_name key))
        (some value) (Made-IsAligned f log m) e
  Made-IsAligned f _ (removed g log name m) =
      maps.remove_names g.header_case g.headers name (Made-IsAligned g log m)
