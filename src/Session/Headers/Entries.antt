-- ===== src/Session/Headers/Entries.antt =====
-- core/src/session/request.rs, response.rs: entries under names, as a header map iterates over them.
use glaive.Prelude.{
  ◌≡◌, refl, sym, ap, ◌∙◌, true, false, List, [], ◌∷◌, ◌++◌, arith, Bool-cases, inl, inr,
  if◌then◌else◌,
}
use glaive.Session.Http.{values}
use glaive.Text.{Text, same, same_self, eq_of_same}

apart_keys :
    (name other key : Text)
    → same name key ≡ true
    → same name other ≡ false
    → same other key ≡ false
apart_keys name other key e apart = elim (Bool-cases (same other key)) [
  | inl o ↦
      let one : name ≡ key = eq_of_same name key e in
      let two : other ≡ key = eq_of_same other key o in
      absurd (ground (arith, apart, same_self other, one ∙ sym two))
  | inr o ↦ o
]

pub apart_sym : (name other : Text) → same name other ≡ false → same other name ≡ false
apart_sym name other apart = elim (Bool-cases (same other name)) [
  | inl o ↦
      let one : other ≡ name = eq_of_same other name o in
      absurd (ground (arith, apart, same_self other, one))
  | inr o ↦ o
]

module _ {V : Type 0} where
  abbrev pub drop_name : List (Text × V) → Text → List (Text × V)
  drop_name [] name = []
  drop_name ((key, v) ∷ m) name =
      let rest = drop_name m name in if same name key then rest else (key, v) ∷ rest

  pub values-append :
      (m k : List (Text × V)) (name : Text) → values (m ++ k) name ≡ values m name ++ values k name
  values-append [] k name = refl
  values-append ((key, v) ∷ m) k name = elim (Bool-cases (same name key)) [
    | inl e ↦ rw e (ap (◌∷◌ v) (values-append m k name))
    | inr e ↦ rw e (values-append m k name)
  ]

  pub values-drop_name : (m : List (Text × V)) (name : Text) → values (drop_name m name) name ≡ []
  values-drop_name [] name = refl
  values-drop_name ((key, v) ∷ m) name = elim (Bool-cases (same name key)) [
    | inl e ↦ rw e (values-drop_name m name)
    | inr e ↦ rw e (rw e (values-drop_name m name))
  ]

  pub values-drop_other :
      (m : List (Text × V)) (name other : Text)
      → same name other ≡ false
      → values (drop_name m name) other ≡ values m other
  values-drop_other [] name other apart = refl
  values-drop_other ((key, v) ∷ m) name other apart = elim (Bool-cases (same name key)) [
    | inl e ↦ rw e (rw (apart_keys name other key e apart) (values-drop_other m name other apart))
    | inr e ↦ elim (Bool-cases (same other key)) [
      | inl o ↦ rw e (rw o (ap (◌∷◌ v) (values-drop_other m name other apart)))
      | inr o ↦ rw e (rw o (values-drop_other m name other apart))
    ]
  ]
