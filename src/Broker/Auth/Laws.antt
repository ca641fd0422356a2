-- ===== src/Broker/Auth/Laws.antt =====
-- What the checks of pkg/broker/broker.go and `authorize` of pkg/broker/handlers.go let through.
use service_broker_k8s.Base.{
  String, ◌≡◌, ◌≢◌, ◌⊎◌, ◌↔◌, inl, inr, refl, Option, Option-cases, none, some, List, [], ◌∷◌, ◌==◌,
  ◌&&◌, arith, Bool-cases, sprintf, eq_iff,
}
use service_broker_k8s.Base.Dict.{Dict, lookup}
use service_broker_k8s.Errors.{Error, Result, ok, err, panic, Result-cases, >>=-eq-ok}
use service_broker_k8s.Json.{Json, null, bool, number, str, arr, obj}
use service_broker_k8s.Env.{Env, JwtToken}
use service_broker_k8s.Http.{Request}
use service_broker_k8s.Broker.Auth.{
  ServerConfiguration, AdvancedToken, get_header_single, extract_jwt_token, key_func, check_rows,
  check_bought_services, authorize, secret_of, claims_of, parse_failed, text_claim, passed,
  check_bearer_token,
}

-- One of the rows names the service and the plan, and every row before it can be read.
abbrev pub IsAmong : (service_id plan_id : String) → List (Result (String × String)) → Type 0
IsAmong service_id plan_id [] = ⊥
IsAmong service_id plan_id (ok (s, p) ∷ rows) =
    ((s ≡ service_id) × (p ≡ plan_id)) ⊎ IsAmong service_id plan_id rows
IsAmong service_id plan_id (_ ∷ rows) = ⊥

-- A user has bought a plan exactly when one of the rows names both the service and the plan, and
-- every row before it can be read.
pub check_rows_iff :
    (service_id plan_id : String) (rows : List (Result (String × String)))
    → (check_rows service_id plan_id rows ≡ ok tt) ↔ IsAmong service_id plan_id rows
unfolding check_rows
check_rows_iff service_id plan_id [] = (λ h. absurd (ground arith), λ h. absurd h)
check_rows_iff service_id plan_id (err e ∷ rows) = (λ h. absurd (ground arith), λ h. absurd h)
check_rows_iff service_id plan_id (panic ∷ rows) = (λ h. absurd (ground arith), λ h. absurd h)
check_rows_iff service_id plan_id (ok (s, p) ∷ rows) =
    let (forth, back) = check_rows_iff service_id plan_id rows in
    elim (Bool-cases (s == service_id && p == plan_id)) [
      | inl same ↦ (
        λ h. inl (ground (arith, same, eq_iff s service_id, eq_iff p plan_id)),
        λ h. ground (arith, same),
      )
      | inr differ ↦ (
        λ h. inr (forth (ground (arith, differ))),
        λ h. elim h [
          | inl (a, b) ↦
              absurd (ground (arith, differ, (eq_iff s service_id).1 a, (eq_iff p plan_id).1 b))
          | inr there ↦ rw differ (back there)
        ],
      )
    ]

-- The check of a bearer token passes exactly for a request with one Authorization header, which
-- is `Bearer ` and the token.
pub check_bearer_token_iff :
    (env : Env) (token : String) (r : Request)
    → (check_bearer_token env token r ≡ passed)
      ↔ (get_header_single r "Authorization" ≡ ok (sprintf ("Bearer " ∷ token ∷ [])))
unfolding check_bearer_token
check_bearer_token_iff env token r = elim (Result-cases (get_header_single r "Authorization")) [
  | inl (header, found) ↦ (
    λ h. ground (arith, found, eq_iff header (sprintf ("Bearer " ∷ token ∷ []))),
    λ h. ground (arith, found, eq_iff header (sprintf ("Bearer " ∷ token ∷ []))),
  )
  | inr (inl (e, found)) ↦
      (λ h. absurd (ground (arith, found)), λ h. absurd (ground (arith, found)))
  | inr (inr found) ↦ (λ h. absurd (ground (arith, found)), λ h. absurd (ground (arith, found)))
]

text_claim_ok : (o : Option Json) (s : String) → text_claim o ≡ ok s → o ≡ some (str s)
text_claim_ok none s h = cc
text_claim_ok (some null) s h = cc
text_claim_ok (some (bool _)) s h = cc
text_claim_ok (some (number _)) s h = cc
text_claim_ok (some (str x)) s h = cc
text_claim_ok (some (arr _)) s h = cc
text_claim_ok (some (obj _)) s h = cc

pair_eq : {A B : Type 0} {p : A × B} {a : A} {b : B} → p.0 ≡ a → p.1 ≡ b → p ≡ (a, b)
pair_eq {A} {B} {p} {a} {b} h k = λ i. (h i, k i)

module _ (env : Env) (configuration : ServerConfiguration) where
  secret_of_ok :
      (o : Option AdvancedToken) (secret : String)
      → secret_of env o ≡ ok secret
      → (settings : AdvancedToken) × (o ≡ some settings) × (settings.jwt_secret ≡ secret)
  secret_of_ok none secret h = cc
  secret_of_ok (some settings) secret h = (settings, refl, cc)

  claims_of_ok :
      (o : Option JwtToken) (claims : Dict Json)
      → claims_of env o ≡ ok claims
      → (token : JwtToken) × (o ≡ some token) × (token.claims ≡ some claims)
  claims_of_ok none claims h = cc
  claims_of_ok (some token) claims h = elim (Option-cases token.claims) [
    | inl nil ↦ absurd (ground (arith, nil))
    | inr (d, held) ↦ (token, refl, ground (arith, held))
  ]

  parse_failed_ok : (o : Option Error) → parse_failed env o ≡ ok tt → o ≡ none
  parse_failed_ok none h = refl
  parse_failed_ok (some e) h = cc

  -- What holds of a request that is authorised for a plan.
  pub record IsAuthorized (r : Request) (service_id plan_id : String) (s : env.State) : Type 0 where
    pub settings : AdvancedToken
    pub token : String
    pub parsed : JwtToken
    pub claims : Dict Json
    pub username : String
    pub rows : List (Result (String × String))
    pub with_settings : configuration.advanced_token ≡ some settings
    pub with_token : extract_jwt_token r ≡ ok token
    pub verified : env.jwt_parse (key_func settings.jwt_secret) token ≡ (some parsed, none)
    pub with_claims : parsed.claims ≡ some claims
    pub with_username : lookup "username" claims ≡ some (str username)
    pub read : env.bought_services username s ≡ ok rows
    pub bought : IsAmong service_id plan_id rows

  -- A request is authorised for a plan only if the broker has the settings of the advanced token,
  -- the request's bearer token is verified with their secret, and one of the rows of the user that
  -- the token names is the service with the plan, and can be read with all rows before it.
  pub authorize_sound :
      (r : Request) (service_id plan_id : String) (s : env.State)
      → authorize env configuration r service_id plan_id s ≡ ok tt
      → IsAuthorized r service_id plan_id s
  unfolding authorize check_bought_services
  authorize_sound r service_id plan_id s h =
      let (token, has_token, h1) = >>=-eq-ok (extract_jwt_token r) _ tt h in
      let (secret, has_secret, h2) =
        >>=-eq-ok (secret_of env configuration.advanced_token) _ tt h1 in
      let out = env.jwt_parse (key_func secret) token in
      let (claims, has_claims, h3) = >>=-eq-ok (claims_of env out.0) _ tt h2 in
      let (u, no_error, h4) = >>=-eq-ok (parse_failed env out.1) _ tt h3 in
      let (username, has_username, h5) =
        >>=-eq-ok (text_claim (lookup "username" claims)) _ tt h4 in
      let (rows, read, bought) = >>=-eq-ok (env.bought_services username s) _ tt h5 in
      let (settings, set, same) = secret_of_ok configuration.advanced_token secret has_secret in
      let (parsed, there, held) = claims_of_ok out.0 claims has_claims in
      record {
        settings = settings;
        token = token;
        parsed = parsed;
        claims = claims;
        username = username;
        rows = rows;
        with_settings = set;
        with_token = has_token;
        verified = rw same (pair_eq there (parse_failed_ok out.1 no_error));
        with_claims = held;
        with_username = text_claim_ok _ username has_username;
        read = read;
        bought = (check_rows_iff service_id plan_id rows).0 bought;
      }

  pub authorize_unset :
      (r : Request) (service_id plan_id : String) (s : env.State)
      → configuration.advanced_token ≡ none
      → authorize env configuration r service_id plan_id s ≢ ok tt
  authorize_unset r service_id plan_id s unset h =
      cc ((authorize_sound r service_id plan_id s h).with_settings, unset)

  -- Without the settings of the advanced token the check of a request with a bearer token panics,
  -- whichever method of authentication the request passed.
  pub authorize_needs_settings :
      (r : Request) (token service_id plan_id : String) (s : env.State)
      → configuration.advanced_token ≡ none
      → extract_jwt_token r ≡ ok token
      → authorize env configuration r service_id plan_id s ≡ panic
  unfolding authorize
  authorize_needs_settings r token service_id plan_id s unset found = ground (arith, unset, found)
