-- ===== src/Gateway/Filters/Configured.antt =====
-- glaive/src/proxy.rs: what the configuration of a cluster makes of the headers.
use glaive.Prelude.{
  ◌≡◌, refl, sym, ap, ◌∙◌, Option, none, some, Bool, false, ◌||◌, List, [], ◌∷◌, ◌++◌, Outcome, ok,
  ◌>>=◌, arith, Bool-cases, inl, inr, if◌then◌else◌, append-nil, append_assoc,
}
use glaive.Text.{Text, same, eq_of_same}
use glaive.Gateway.Filters.{
  InsertHeader, RemoveHeader, Headers, Filter, GatewayHeaders, dashed, Map, insert_each, remove_key,
  insert_if, remove_if, remove_each, filter_headers, filter_if,
}

abbrev pub values_of : Text → List (Text × Text) → List Text
values_of name [] = []
values_of name ((key, value) ∷ ps) =
    let rest = values_of name ps in if same key name then value ∷ rest else rest

abbrev list_or : {A : Type 0} → Option (List A) → List A
list_or none = []
list_or (some l) = l

abbrev inserts_in : Option Headers → List InsertHeader
inserts_in none = []
inserts_in (some f) = list_or f.insert

abbrev removes_in : Option Headers → List RemoveHeader
removes_in none = []
removes_in (some f) = list_or f.remove

abbrev pub inserts_of : Option Filter → List InsertHeader
inserts_of none = []
inserts_of (some f) = inserts_in f.headers

abbrev pub removes_of : Option Filter → List RemoveHeader
removes_of none = []
removes_of (some f) = removes_in f.headers

module _ (g : GatewayHeaders) where
  open g use {maps, name_of, value_of, token_name, visible_value}

  -- The names and values that the configured insertions convert to.
  abbrev pub Converts : List InsertHeader → List (Text × Text) → Type 0
  Converts [] [] = Unit
  Converts [] (p ∷ ps) = ⊥
  Converts (i ∷ is) [] = ⊥
  Converts (i ∷ is) ((name, value) ∷ ps) =
      (name_of (dashed i.key) ≡ some name) × ((value_of i.value ≡ some value) × Converts is ps)

  abbrev takes_out : Option Text → Text → Bool
  takes_out none name = false
  takes_out (some key) name = same key name

  abbrev pub is_removed : List RemoveHeader → Text → Bool
  is_removed [] name = false
  is_removed (r ∷ rs) name = takes_out (name_of (dashed r.key)) name || is_removed rs name

  get_appended :
      (h : Map g) (key value name : Text) (rest : List Text)
      → maps.get_all (maps.append h key value) name ++ rest
        ≡ maps.get_all h name ++ (if same key name then value ∷ rest else rest)
  get_appended h key value name rest = elim (Bool-cases (same key name)) [
    | inl e ↦
        rw (e, sym (eq_of_same key name e))
          (ap (λ vs. vs ++ rest) (maps.get_append h key value)
            ∙ append_assoc (maps.get_all h key) (value ∷ []) rest)
    | inr e ↦ rw e (ap (λ vs. vs ++ rest) (maps.get_append_other h key name value e))
  ]

  get_removed :
      (h : Map g) (key : Option Text) (name : Text)
      → maps.get_all (remove_key g key h) name
        ≡ (if takes_out key name then [] else maps.get_all h name)
  get_removed h none name = refl
  get_removed h (some key) name = elim (Bool-cases (same key name)) [
    | inl e ↦ rw (e, sym (eq_of_same key name e)) (maps.get_remove h key)
    | inr e ↦ rw e (maps.get_remove_other h key name e)
  ]

  pub get_inserted :
      (h : Map g) (key value name : Text)
      → maps.get_all (maps.insert h key value) name
        ≡ (if same key name then value ∷ [] else maps.get_all h name)
  get_inserted h key value name = elim (Bool-cases (same key name)) [
    | inl e ↦ rw (e, sym (eq_of_same key name e)) (maps.get_insert h key value)
    | inr e ↦ rw e (maps.get_insert_other h key name value e)
  ]

  -- A run that succeeds, and what it leaves under each name.
  pub record Leaves (r : Outcome (Map g)) (expected : Text → List Text) : Type 0 where
    pub after : Map g
    pub leaves : r ≡ ok after
    pub values : (name : Text) → maps.get_all after name ≡ expected name

  insert_each-Leaves :
      (is : List InsertHeader) (ps : List (Text × Text)) (h : Map g)
      → Converts is ps
      → Leaves (insert_each g is h) (λ name. maps.get_all h name ++ values_of name ps)
  unfolding insert_each
  insert_each-Leaves [] [] h c = record {
    after = h;
    leaves = refl;
    values = λ name. sym (append-nil (maps.get_all h name));
  }
  insert_each-Leaves [] (p ∷ ps) h c = absurd c
  insert_each-Leaves (i ∷ is) [] h c = absurd c
  insert_each-Leaves (i ∷ is) ((key, value) ∷ ps) h (named, (valued, c)) =
      let rest = insert_each-Leaves is ps (maps.append h key value) c in
      record {
        after = rest.after;
        leaves = rw (named, valued) rest.leaves;
        values = λ name. rest.values name ∙ get_appended h key value name (values_of name ps);
      }

  remove_each-get_all :
      (rs : List RemoveHeader) (h : Map g) (name : Text)
      → maps.get_all (remove_each g rs h) name
        ≡ (if is_removed rs name then [] else maps.get_all h name)
  unfolding remove_each
  remove_each-get_all [] h name = refl
  remove_each-get_all (r ∷ rs) h name =
      let key = name_of (dashed r.key) in
      ground (arith, remove_each-get_all rs (remove_key g key h) name, get_removed h key name)

  -- The values that the configuration leaves under a name.
  abbrev pub configured : Option Filter → List (Text × Text) → Map g → Text → List Text
  configured f ps h name =
      if is_removed (removes_of f) name then [] else maps.get_all h name ++ values_of name ps

  removed-Leaves :
      (r : Outcome (Map g)) (rs : List RemoveHeader) (expected : Text → List Text)
      → Leaves r expected
      → Leaves
          (do h ← r; ok (remove_each g rs h))
          (λ name. if is_removed rs name then [] else expected name)
  removed-Leaves r rs expected l = record {
    after = remove_each g rs l.after;
    leaves = rw l.leaves refl;
    values = λ name.
        remove_each-get_all rs l.after name
        ∙ ap (λ vs. if is_removed rs name then [] else vs) (l.values name);
  }

  untouched-Leaves :
      (ps : List (Text × Text)) (h : Map g)
      → Converts [] ps
      → Leaves (ok h) (λ name. maps.get_all h name ++ values_of name ps)
  untouched-Leaves [] h c = record {
    after = h;
    leaves = refl;
    values = λ name. sym (append-nil (maps.get_all h name));
  }
  untouched-Leaves (p ∷ ps) h c = absurd c

  insert_if-Leaves :
      (is : Option (List InsertHeader)) (ps : List (Text × Text)) (h : Map g)
      → Converts (list_or is) ps
      → Leaves (insert_if g is h) (λ name. maps.get_all h name ++ values_of name ps)
  insert_if-Leaves none ps h c = untouched-Leaves ps h c
  insert_if-Leaves (some is) ps h c = insert_each-Leaves is ps h c

  both-Leaves :
      (is : Option (List InsertHeader)) (rs : Option (List RemoveHeader)) (ps : List (Text × Text))
      (h : Map g)
      → Converts (list_or is) ps
      → Leaves
          (do h' ← insert_if g is h; ok (remove_if g rs h'))
          (λ name.
            if is_removed (list_or rs) name then [] else maps.get_all h name ++ values_of name ps)
  unfolding remove_each
  both-Leaves is none ps h c = removed-Leaves (insert_if g is h) [] _ (insert_if-Leaves is ps h c)
  both-Leaves is (some rs) ps h c =
      removed-Leaves (insert_if g is h) rs _ (insert_if-Leaves is ps h c)

  headers-Leaves :
      (f : Option Headers) (ps : List (Text × Text)) (h : Map g)
      → Converts (inserts_in f) ps
      → Leaves (filter_headers g f h) (λ name.
        if is_removed (removes_in f) name then [] else maps.get_all h name ++ values_of name ps)
  headers-Leaves none ps h c = untouched-Leaves ps h c
  headers-Leaves (some f) ps h c = both-Leaves f.insert f.remove ps h c

  pub filter_if-Leaves :
      (f : Option Filter) (ps : List (Text × Text)) (h : Map g)
      → Converts (inserts_of f) ps
      → Leaves (filter_if g f h) (configured f ps h)
  filter_if-Leaves none ps h c = untouched-Leaves ps h c
  filter_if-Leaves (some f) ps h c = headers-Leaves f.headers ps h c
