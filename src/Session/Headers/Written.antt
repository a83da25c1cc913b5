-- ===== src/Session/Headers/Written.antt =====
-- core/src/session/request.rs, response.rs: each value is written with the name that was given for
-- it.
use glaive.Prelude.{
  ◌≡◌, refl, sym, ap, subst, ◌∙◌, some, true, false, List, [], ◌∷◌, ◌++◌, ok, arith, Bool-cases,
  inl, inr, append-nil,
}
use glaive.Session.Offset.{Bytes}
use glaive.Session.Http.{Http, names, values}
use glaive.Session.Headers.{
  Fields, into_case_header_name, append_to, append_header, insert_to, insert_header, remove_header,
  header_lines, line, crlf, write_fields,
}
use glaive.Session.Headers.Aligned.{Entry, Made, fresh, appended, inserted, removed, Made-IsAligned}
use glaive.Session.Headers.Entries.{
  drop_name, values-append, values-drop_name, values-drop_other, apart_sym,
}
use glaive.Text.{Text, same, same_self, eq_of_same}

abbrev pub lines : List Entry → Bytes
lines [] = crlf
lines ((name, (title, value)) ∷ entries) = line title value ++ lines entries

abbrev titles_of : List (Bytes × Bytes) → List Bytes
titles_of [] = []
titles_of ((title, value) ∷ pairs) = title ∷ titles_of pairs

abbrev values_of : List (Bytes × Bytes) → List Bytes
values_of [] = []
values_of ((title, value) ∷ pairs) = value ∷ values_of pairs

titles_of-append : (a b : List (Bytes × Bytes)) → titles_of (a ++ b) ≡ titles_of a ++ titles_of b
titles_of-append [] b = refl
titles_of-append ((t, v) ∷ a) b = ap (◌∷◌ t) (titles_of-append a b)

values_of-append : (a b : List (Bytes × Bytes)) → values_of (a ++ b) ≡ values_of a ++ values_of b
values_of-append [] b = refl
values_of-append ((t, v) ∷ a) b = ap (◌∷◌ v) (values_of-append a b)

abbrev tail_names : List Text → List Text
tail_names [] = []
tail_names (n ∷ ns) = ns

abbrev head_name : List Text → Text
head_name [] = []
head_name (n ∷ ns) = n

-- The zip of the two iterations.
abbrev zipped : List (Text × Bytes) → List (Text × Bytes) → List Entry
zipped [] ws = []
zipped (c ∷ cs) [] = []
zipped ((name, title) ∷ cs) ((_, value) ∷ ws) = (name, (title, value)) ∷ zipped cs ws

header_lines-zipped :
    (cs ws : List (Text × Bytes))
    → names cs ≡ names ws
    → header_lines cs ws ≡ ok (lines (zipped cs ws))
unfolding header_lines
header_lines-zipped [] ws e = refl
header_lines-zipped (c ∷ cs) [] e = refl
header_lines-zipped ((name, title) ∷ cs) ((name', value) ∷ ws) e =
    let same_name : name ≡ name' = ap head_name e in
    let rest = header_lines-zipped cs ws (ap tail_names e) in
    rw same_name (rw (same_self name') (rw rest refl))

-- Of one name, the zip is the zip of its titles and its values: whatever those two lists are the
-- titles and the values of.
values-zipped :
    (cs ws : List (Text × Bytes)) (name : Text) (pairs : List (Bytes × Bytes))
    → names cs ≡ names ws
    → values cs name ≡ titles_of pairs
    → values ws name ≡ values_of pairs
    → values (zipped cs ws) name ≡ pairs
values-zipped [] [] name [] e t v = refl
values-zipped [] [] name (p ∷ ps) e t v = absurd cc
values-zipped [] (w ∷ ws) name pairs e t v = absurd cc
values-zipped (c ∷ cs) [] name pairs e t v = absurd cc
values-zipped ((n, title) ∷ cs) ((n', value) ∷ ws) name pairs e t v =
    let same_name : n ≡ n' = ap head_name e in
    elim (Bool-cases (same name n)) [
      | inl y ↦
          let y' : same name n' ≡ true = ap (same name) (sym same_name) ∙ y in
          rw y (
            here (λ ps a b. values-zipped cs ws name ps (ap tail_names e) a b) pairs
              (ground (arith, t, y)) (ground (arith, v, y')))
      | inr y ↦
          let y' : same name n' ≡ false = ap (same name) (sym same_name) ∙ y in
          rw y (
            values-zipped cs ws name pairs (ap tail_names e) (ground (arith, t, y))
              (ground (arith, v, y')))
    ]
  where
    here :
        ((ps : List (Bytes × Bytes))
          → values cs name ≡ titles_of ps
          → values ws name ≡ values_of ps
          → values (zipped cs ws) name ≡ ps)
        → (ps : List (Bytes × Bytes)) → title ∷ values cs name ≡ titles_of ps
        → value ∷ values ws name ≡ values_of ps
        → (title, value) ∷ values (zipped cs ws) name ≡ ps
    here again [] a b = absurd cc
    here again ((t1, v1) ∷ ps) a b =
        let rest = again ps (cc) (cc) in ap (λ x. (title, value) ∷ x) rest ∙ ap (λ x. x ∷ ps) (cc)

module _ (http : Http) where
  open http use {maps, header_name}

  -- The two maps hold, for each name, the titles and the values of what was put under it.
  record Logged (f : Fields http) (log : List Entry) (name : Text) : Type 0 where
    titles : maps.get_all f.header_case name ≡ titles_of (values log name)
    contents : maps.get_all f.headers name ≡ values_of (values log name)

  puts :
      (log : List Entry) (key name : Text) (title value : Bytes)
      → same name key ≡ true
      → values (log ++ ((key, (title, value)) ∷ [])) name ≡ values log name ++ ((title, value) ∷ [])
  puts log key name title value e = values-append log ((key, (title, value)) ∷ []) name ∙ rw e refl

  puts_other :
      (log : List Entry) (key name : Text) (title value : Bytes)
      → same name key ≡ false
      → values (log ++ ((key, (title, value)) ∷ [])) name ≡ values log name
  puts_other log key name title value e =
      values-append log ((key, (title, value)) ∷ []) name ∙ rw e (append-nil (values log name))

  -- An entry that is put behind those that are there.
  put-Logged :
      (f g : Fields http) (log : List Entry) (key name : Text) (title value : Bytes)
      → (maps.get_all g.header_case key ≡ maps.get_all f.header_case key ++ (title ∷ []))
        × (maps.get_all g.headers key ≡ maps.get_all f.headers key ++ (value ∷ []))
      → ((other : Text)
          → same key other ≡ false
          → (maps.get_all g.header_case other ≡ maps.get_all f.header_case other)
            × (maps.get_all g.headers other ≡ maps.get_all f.headers other))
      → Logged f log name
      → Logged g (log ++ ((key, (title, value)) ∷ [])) name
  put-Logged f g log key name title value own others l = elim (Bool-cases (same name key)) [
    | inl e ↦
        let is : name ≡ key = eq_of_same name key e in
        let more = puts log key name title value e in
        record {
          titles =
              ap (maps.get_all g.header_case) is
              ∙ own.0
              ∙ ap (λ x. x ++ (title ∷ [])) (ap (maps.get_all f.header_case) (sym is) ∙ l.titles)
              ∙ sym (ap titles_of more ∙ titles_of-append (values log name) ((title, value) ∷ []));
          contents =
              ap (maps.get_all g.headers) is
              ∙ own.1
              ∙ ap (λ x. x ++ (value ∷ [])) (ap (maps.get_all f.headers) (sym is) ∙ l.contents)
              ∙ sym (ap values_of more ∙ values_of-append (values log name) ((title, value) ∷ []));
        }
    | inr e ↦
        let same_others = others name (apart_sym name key e) in
        let none_more = puts_other log key name title value e in
        record {
          titles = same_others.0 ∙ l.titles ∙ ap titles_of (sym none_more);
          contents = same_others.1 ∙ l.contents ∙ ap values_of (sym none_more);
        }
  ]

  append_to-Logged :
      (f g : Fields http) (log : List Entry) (key name : Text) (title value : Bytes)
      → append_to http f title (some key) (some value) ≡ ok g
      → Logged f log name
      → Logged g (log ++ ((key, (title, value)) ∷ [])) name
  append_to-Logged f g log key name title value e l =
      let is : g ≡ record {
        headers = maps.append f.headers key value;
        header_case = maps.append f.header_case key title;
      } =
        cc in
      rw is (
        put-Logged f _ log key name title value
          (maps.get_append f.header_case key title, maps.get_append f.headers key value)
          (λ other apart. (
            maps.get_append_other f.header_case key other title apart,
            maps.get_append_other f.headers key other value apart,
          ))
          l)

  removed-Logged :
      (f : Fields http) (log : List Entry) (key name : Text)
      → Logged f log name
      → Logged (remove_header http f key) (drop_name log key) name
  unfolding remove_header
  removed-Logged f log key name l = elim (Bool-cases (same key name)) [
    | inl e ↦
        let is : name ≡ key = sym (eq_of_same key name e) in
        let none_left = values-drop_name log key in
        subst (Logged (remove_header http f key) (drop_name log key)) (sym is) (record {
          titles = maps.get_remove f.header_case key ∙ ap titles_of (sym none_left);
          contents = maps.get_remove f.headers key ∙ ap values_of (sym none_left);
        })
    | inr e ↦
        let all_left = values-drop_other log key name e in
        record {
          titles =
              maps.get_remove_other f.header_case key name e
              ∙ l.titles
              ∙ ap titles_of (sym all_left);
          contents =
              maps.get_remove_other f.headers key name e ∙ l.contents ∙ ap values_of (sym all_left);
        }
  ]

  -- An insertion is a removal and an append, as far as the values go.
  insert_to-Logged :
      (f g : Fields http) (log : List Entry) (key name : Text) (title value : Bytes)
      → insert_to http f title (some key) (some value) ≡ ok g
      → Logged f log name
      → Logged g (drop_name log key ++ ((key, (title, value)) ∷ [])) name
  unfolding remove_header
  insert_to-Logged f g log key name title value e l =
      let is : g ≡ record {
        headers = maps.insert f.headers key value;
        header_case = maps.insert f.header_case key title;
      } =
        cc in
      rw is (
        put-Logged (remove_header http f key) _ (drop_name log key) key name title value
          (
            maps.get_insert f.header_case key title
                ∙ ap (λ x. x ++ (title ∷ [])) (sym (maps.get_remove f.header_case key)),
            maps.get_insert f.headers key value
                ∙ ap (λ x. x ++ (value ∷ [])) (sym (maps.get_remove f.headers key)),
          )
          (λ other apart. (
            maps.get_insert_other f.header_case key other title apart
                ∙ sym (maps.get_remove_other f.header_case key other apart),
            maps.get_insert_other f.headers key other value apart
                ∙ sym (maps.get_remove_other f.headers key other apart),
          ))
          (removed-Logged f log key name l))

  Made-Logged :
      (f : Fields http) (log : List Entry) (name : Text) → Made http f log → Logged f log name
  unfolding append_header insert_header
  Made-Logged f log name fresh = record {
    titles = sym (maps.get_iter maps.empty name) ∙ ap (λ m. values m name) maps.iter_empty;
    contents = sym (maps.get_iter maps.empty name) ∙ ap (λ m. values m name) maps.iter_empty;
  }
  Made-Logged g _ name (appended f _ log key title value m valid e) =
      append_to-Logged f g log title name (into_case_header_name key) value
        (subst (λ k. append_to http f (into_case_header_name key) k (some value) ≡ ok g) valid e)
        (Made-Logged f log name m)
  Made-Logged g _ name (inserted f _ log key title value m valid e) =
      insert_to-Logged f g log title name (into_case_header_name key) value
        (subst (λ k. insert_to http f (into_case_header_name key) k (some value) ≡ ok g) valid e)
        (Made-Logged f log name m)
  Made-Logged f _ name (removed g log key m) =
      removed-Logged g log key name (Made-Logged g log name m)

  -- The lines that are written, and that they are those of what was put.
  pub record WrittenAs (f : Fields http) (log : List Entry) : Type 0 where
    pub entries : List Entry
    pub writes : write_fields http f ≡ ok (lines entries)
    pub same_entries : (name : Text) → values entries name ≡ values log name

  -- Headers that appends, insertions and removals made are written without a panic: a line for each
  -- entry, and an empty line at the end. Of each name, the lines are for the values that were
  -- appended to it since it was last inserted or removed, that insertion's first, in their order,
  -- and each with the written form of the name that was given for that value.
  pub Made-writes : (f : Fields http) (log : List Entry) → Made http f log → WrittenAs f log
  unfolding write_fields
  Made-writes f log m =
      let cs = maps.iter f.header_case in
      let ws = maps.iter f.headers in
      record {
        entries = zipped cs ws;
        writes = header_lines-zipped cs ws (Made-IsAligned http f log m);
        same_entries = λ name.
            let l = Made-Logged f log name m in
            values-zipped cs ws name (values log name) (Made-IsAligned http f log m)
              (maps.get_iter f.header_case name ∙ l.titles)
              (maps.get_iter f.headers name ∙ l.contents);
      }
