-- ===== src/Gateway/Auth/Authorized.antt =====
-- glaive/src/auth.rs: what holds of a request whose credential passes.
use glaive.Prelude.{
  ◌≡◌, refl, subst, Option, none, some, true, false, List, arith, Option-cases, inl, inr,
}
use glaive.Text.{Text, contains}
use glaive.Gateway.Context.{Session, HeaderValue}
use glaive.Gateway.Auth
use glaive.Gateway.Auth.{
  AuthType, Claims, Consumer, Decoded, Key, Jwt, basic_key, basic_jwt, find_consumer, share,
  cleaned,
}

-- A token's consumer may use a cluster: the cluster names no consumers, or it names this one, the
-- gateway knows it, and some access control of it there is among those that the cluster allows.
pub data Authorized (claims : Claims)
    : Option (List Consumer) → Option (List Consumer) → Type 0 where
  no_consumers : (defined : Option (List Consumer)) → Authorized claims defined none
  by_acl :
      (defined consumers : List Consumer) (client known : Consumer)
      → find_consumer claims.consumer consumers ≡ some client
      → find_consumer client.name defined ≡ some known
      → share known.acl client.acl ≡ true
      → Authorized claims (some defined) (some consumers)

-- A request's credential against a cluster's way to authenticate. The external way has no check.
pub data Authenticated (decode : Text → Text → Decoded) (defined consumers : Option (List Consumer))
    (header : Option HeaderValue) : Option AuthType → Type 0 where
  no_auth : Authenticated decode defined consumers header none
  by_key :
      (key : Key) (value : HeaderValue) (creds : Text)
      → header ≡ some value
      → value.utf8 ≡ some creds
      → contains (cleaned creds) key.allowed ≡ true
      → Authenticated decode defined consumers header (some (Auth.key_auth key))
  by_token :
      (jwt : Jwt) (value : HeaderValue) (token : Text) (claims : Claims)
      → header ≡ some value
      → value.utf8 ≡ some token
      → decode (cleaned token) jwt.secret ≡ Auth.valid claims
      → Authorized claims defined consumers
      → Authenticated decode defined consumers header (some (Auth.jwt_auth jwt))
  unchecked : Authenticated decode defined consumers header (some Auth.external)

check_key-allows :
    (key : Key) (s : Session) (creds : Text)
    → (Auth.check_key key s (some creds)).1 ≡ false
    → contains (cleaned creds) key.allowed ≡ true
check_key-allows key s creds e = ground (arith, e)

check_defined-Authorized :
    (claims : Claims) (defined : Option (List Consumer)) (consumers : List Consumer) (s : Session)
    (found : Option Consumer)
    → find_consumer claims.consumer consumers ≡ found
    → (Auth.check_defined defined s found).1 ≡ false
    → Authorized claims defined (some consumers)
check_defined-Authorized claims none consumers s none f e = absurd cc
check_defined-Authorized claims (some ds) consumers s none f e = absurd cc
check_defined-Authorized claims none consumers s (some client) f e = absurd cc
check_defined-Authorized claims (some ds) consumers s (some client) f e =
    elim (Option-cases (find_consumer client.name ds)) [
      | inl g ↦ absurd (ground (arith, g, e))
      | inr (known, g) ↦ by_acl ds consumers client known f g (ground (arith, g, e))
    ]

check_defined_keeps :
    (defined : Option (List Consumer)) (s : Session) (found : Option Consumer)
    → (Auth.check_defined defined s found).1 ≡ false
    → (Auth.check_defined defined s found).0 ≡ s
check_defined_keeps none s none e = absurd cc
check_defined_keeps (some ds) s none e = absurd cc
check_defined_keeps none s (some client) e = absurd cc
check_defined_keeps (some ds) s (some client) e =
    elim (Option-cases (find_consumer client.name ds)) [
      | inl g ↦ absurd (ground (arith, g, e))
      | inr (known, g) ↦ ground (arith, g, e)
    ]

pub key_keeps :
    (key : Key) (s : Session) (header : Option HeaderValue)
    → (Auth.check_key_header key s header).1 ≡ false
    → (Auth.check_key_header key s header).0 ≡ s
key_keeps key s none e = absurd cc
key_keeps key s (some value) e = elim (Option-cases value.utf8) [
  | inl f ↦ absurd (ground (arith, f, e))
  | inr (creds, f) ↦ ground (arith, f, e)
]

module _ (decode : Text → Text → Decoded) where
  check_token_keeps :
      (defined consumers : Option (List Consumer)) (s : Session) (d : Decoded)
      → (Auth.check_token decode defined consumers s d).1 ≡ false
      → (Auth.check_token decode defined consumers s d).0 ≡ s
  check_token_keeps defined none s (Auth.valid claims) e = refl
  check_token_keeps defined (some consumers) s (Auth.valid claims) e =
      check_defined_keeps defined s (find_consumer claims.consumer consumers) e
  check_token_keeps defined consumers s (Auth.refused error) e = absurd cc

  check_jwt_keeps :
      (defined consumers : Option (List Consumer)) (jwt : Jwt) (s : Session) (token : Option Text)
      → (Auth.check_jwt decode defined consumers jwt s token).1 ≡ false
      → (Auth.check_jwt decode defined consumers jwt s token).0 ≡ s
  check_jwt_keeps defined consumers jwt s none e = absurd cc
  check_jwt_keeps defined consumers jwt s (some token) e =
      check_token_keeps defined consumers s (decode (cleaned token) jwt.secret) e

  pub jwt_keeps :
      (defined consumers : Option (List Consumer)) (jwt : Jwt) (s : Session)
      (header : Option HeaderValue)
      → (Auth.check_jwt_header decode defined consumers jwt s header).1 ≡ false
      → (Auth.check_jwt_header decode defined consumers jwt s header).0 ≡ s
  jwt_keeps defined consumers jwt s none e = absurd cc
  jwt_keeps defined consumers jwt s (some value) e =
      check_jwt_keeps defined consumers jwt s value.utf8 e

  check_token-Authorized :
      (defined consumers : Option (List Consumer)) (s : Session) (d : Decoded)
      → (Auth.check_token decode defined consumers s d).1 ≡ false
      → (claims : Claims) × ((d ≡ Auth.valid claims) × Authorized claims defined consumers)
  check_token-Authorized defined none s (Auth.valid claims) e =
      (claims, (refl, no_consumers defined))
  check_token-Authorized defined (some consumers) s (Auth.valid claims) e =
      (claims, (refl, check_defined-Authorized claims defined consumers s _ refl e))
  check_token-Authorized defined consumers s (Auth.refused error) e = absurd cc

  pub key-Authenticated :
      (defined consumers : Option (List Consumer)) (key : Key) (s : Session)
      (header : Option HeaderValue)
      → (Auth.check_key_header key s header).1 ≡ false
      → Authenticated decode defined consumers header (some (Auth.key_auth key))
  key-Authenticated defined consumers key s none e = absurd cc
  key-Authenticated defined consumers key s (some value) e = elim (Option-cases value.utf8) [
    | inl f ↦ absurd (ground (arith, f, e))
    | inr (creds, f) ↦ by_key key value creds refl f (ground (arith, f, e))
  ]

  pub jwt-Authenticated :
      (defined consumers : Option (List Consumer)) (jwt : Jwt) (s : Session)
      (header : Option HeaderValue)
      → (Auth.check_jwt_header decode defined consumers jwt s header).1 ≡ false
      → Authenticated decode defined consumers header (some (Auth.jwt_auth jwt))
  jwt-Authenticated defined consumers jwt s none e = absurd cc
  jwt-Authenticated defined consumers jwt s (some value) e = elim (Option-cases value.utf8) [
    | inl f ↦ absurd (ground (arith, f, e))
    | inr (token, f) ↦
        let passed : (Auth.check_token decode defined consumers s
              (decode (cleaned token) jwt.secret)).1
            ≡ false =
          subst (λ o. (Auth.check_jwt decode defined consumers jwt s o).1 ≡ false) f e in
        let (claims, (d, authorized)) =
          check_token-Authorized defined consumers s (decode (cleaned token) jwt.secret) passed in
        by_token jwt value token claims refl f d authorized
  ]
