-- ===== src/Broker/Auth.antt =====
-- pkg/broker/broker.go: the headers of a request and its authentication; `authorize` of
-- pkg/broker/handlers.go.
pub mod Laws
use service_broker_k8s.Base.{
  nat_eq, ℕ, String, Bool, true, false, Option, none, some, List, [], ◌∷◌, ◌==◌, ◌&&◌, not,
  if◌then◌else◌, sprintf,
}
use service_broker_k8s.Base.Text.{equal_fold, lower_equal, split_spaces}
use service_broker_k8s.Base.Dict.{Dict, lookup}
use service_broker_k8s.Errors.{Error, Result, ok, err, panic, other, or_fail, ◌>>=◌, ◌>>◌}
use service_broker_k8s.Json.{Json, str}
use service_broker_k8s.Env.{Env, JwtToken}
use service_broker_k8s.Http.{Request}

pub record BasicAuth : Type 0 where
  pub username : String
  pub password : String

-- `ServerConfigurationAdvancedToken`, less the settings of the database.
pub record AdvancedToken : Type 0 where
  pub jwt_secret : String

pub record ServerConfiguration : Type 0 where
  pub namespace : String
  pub token : Option String
  pub basic_auth : Option BasicAuth
  pub advanced_token : Option AdvancedToken

-- The values of the first header of a name.
unfoldable pub find_header : String → Dict (List String) → Option (List String)
unfolding equal_fold
find_header name [] = none
find_header name ((header, values) ∷ more) =
    if equal_fold header name then some values else find_header name more

-- `getHeader`
unfoldable pub get_header : Request → String → Result (List String)
unfolding find_header
get_header r name =
    or_fail (find_header name r.headers)
      (other (sprintf ("request malformed: no header found for " ∷ name ∷ [])))

abbrev single_value : String → List String → Result String
single_value name (value ∷ []) = ok value
single_value name _ =
    err (other (sprintf ("request malformed: multiple headers found for " ∷ name ∷ [])))

-- `getHeaderSingle`
unfoldable pub get_header_single : Request → String → Result String
unfolding get_header
get_header_single r name = do headers ← get_header r name; single_value name headers

-- The token of a header of two parts, the first of which is `bearer` in any case.
unfoldable pub bearer_token : List String → Option String
unfolding lower_equal
bearer_token (scheme ∷ token ∷ []) = if lower_equal scheme "bearer" then some token else none
bearer_token _ = none

-- `extractJwtToken`
unfoldable pub extract_jwt_token : Request → Result String
unfolding get_header_single bearer_token split_spaces
extract_jwt_token r = do
  header ← get_header_single r "Authorization"
  or_fail (bearer_token (split_spaces header)) (other "request malformed: invalid token")

-- The key function of `jwt.Parse`.
unfoldable pub key_func : String → Bool → Result String
key_func secret is_hmac = if is_hmac then ok secret else err (other "unexpected signing method")

-- `row == wanted` for one of the rows; a row that cannot be read ends the loop.
unfoldable pub check_rows :
    (service_id plan_id : String) → List (Result (String × String)) → Result (Unit {0})
check_rows service_id plan_id [] = err (other "service id and plan id not bought by user")
check_rows service_id plan_id (row ∷ rows) =
    let rest = check_rows service_id plan_id rows in
    do
      (service_row, plan_row) ← row
      if service_row == service_id && plan_row == plan_id then ok tt else rest

-- `claims["username"].(string)`, which panics if it is missing or no text.
abbrev pub text_claim : Option Json → Result String
text_claim (some (str s)) = ok s
text_claim _ = panic

-- What a check of the headers does: it passes, it sends a status, or it panics.
pub data Check : Type 0 where
  passed : Check
  refused : ℕ → Check
  crashed : Check

abbrev pub and_then : Check → Check → Check
and_then passed c = c
and_then (refused status) c = refused status
and_then crashed c = crashed

module _ (env : Env) where
  open env use {State, jwt_parse, bought_services, base64_encode, Float, parse_float, below_minimum}

  -- `checkBoughtServices`
  unfoldable pub check_bought_services :
      (username service_id plan_id : String) → State → Result (Unit {0})
  unfolding check_rows
  check_bought_services username service_id plan_id s = do
    rows ← bought_services username s
    check_rows service_id plan_id rows

  -- The claims of a token, read before the error of its parse is; there may be no token.
  abbrev pub claims_of : Option JwtToken → Result (Dict Json)
  claims_of none = panic
  claims_of (some token) = elim (token.claims) [ none ↦ panic | some claims ↦ ok claims ]

  abbrev pub parse_failed : Option Error → Result (Unit {0})
  parse_failed none = ok tt
  parse_failed (some _) = err (other "unable to parse claims")

  -- `configuration.AdvancedToken.JwtSecret`
  abbrev pub secret_of : Option AdvancedToken → Result String
  secret_of none = panic
  secret_of (some token) = ok token.jwt_secret

  abbrev authorize_token :
      String → String → (service_id plan_id : String) → State → Result (Unit {0})
  authorize_token secret token service_id plan_id s = do
    let (parsed, error) = jwt_parse (key_func secret) token
    claims ← claims_of parsed
    parse_failed error
    username ← text_claim (lookup "username" claims)
    check_bought_services username service_id plan_id s

  -- `authorize`
  unfoldable pub authorize :
      ServerConfiguration → Request → (service_id plan_id : String) → State → Result (Unit {0})
  unfolding extract_jwt_token key_func check_bought_services
  authorize configuration r service_id plan_id s = do
    token ← extract_jwt_token r
    secret ← secret_of configuration.advanced_token
    authorize_token secret token service_id plan_id s

  -- A header that must be there once, or else the status is sent.
  abbrev with_header : Request → String → ℕ → (String → Check) → Check
  with_header r name status k = elim (get_header_single r name) [
    | ok header ↦ k header
    | err _ ↦ refused status
    | panic ↦ crashed
  ]

  abbrev refuse_unless : Bool → ℕ → Check
  refuse_unless b status = if b then passed else refused status

  -- `handleBrokerBearerToken`
  unfoldable pub check_bearer_token : String → Request → Check
  unfolding get_header_single sprintf
  check_bearer_token token r =
      with_header r "Authorization" 401
        (λ header. refuse_unless (header == sprintf ("Bearer " ∷ token ∷ [])) 401)

  -- `handleBrokerBasicAuth`
  unfoldable pub check_basic_auth : BasicAuth → Request → Check
  unfolding get_header_single sprintf
  check_basic_auth auth r = with_header r "Authorization" 401 (λ header.
      refuse_unless
        (header
          == sprintf
              ("Basic " ∷ base64_encode (sprintf (auth.username ∷ ":" ∷ auth.password ∷ [])) ∷ []))
        401)

  -- What `handleJwtAuth` makes of the result of the parse.
  abbrev check_parsed : Option JwtToken × Option Error → Check
  check_parsed (_, some e) = refused 400
  check_parsed (none, none) = crashed
  check_parsed (some token, none) =
      if not token.valid
      then refused 401
      else elim (token.claims) [ none ↦ refused 400 | some _ ↦ passed ]

  abbrev check_token : AdvancedToken → Option String → Check
  check_token auth none = refused 400
  check_token auth (some token) = check_parsed (jwt_parse (key_func auth.jwt_secret) token)

  -- `handleJwtAuth` and `handleAdvancedToken`
  unfoldable pub check_jwt : AdvancedToken → Request → Check
  unfolding get_header_single bearer_token split_spaces key_func
  check_jwt auth r =
      with_header r "Authorization" 401
        (λ header. check_token auth (bearer_token (split_spaces header)))

  -- `handleBrokerAPIHeader`
  unfoldable pub check_api_header : Request → Check
  unfolding get_header_single
  check_api_header r = with_header r "X-Broker-API-Version" 400 (λ header.
      elim (parse_float header) [
        | ok version ↦ if below_minimum version then refused 412 else passed
        | err _ ↦ refused 400
        | panic ↦ crashed
      ])

  -- `handleContentTypeHeader`
  unfoldable pub check_content_type : Request → Check
  unfolding get_header_single
  check_content_type r =
      if nat_eq r.content_length 0
      then passed
      else with_header r "Content-Type" 400
          (λ header. refuse_unless (header == "application/json") 400)

  -- The switch of `handleRequestHeaders`: the first method of authentication that is set.
  unfoldable pub check_authentication : ServerConfiguration → Request → Check
  unfolding check_bearer_token check_basic_auth check_jwt
  check_authentication configuration r = elim (configuration.token) [
    | some token ↦ check_bearer_token token r
    | none ↦ elim (configuration.basic_auth) [
      | some auth ↦ check_basic_auth auth r
      | none ↦ elim (configuration.advanced_token) [
        | some auth ↦ check_jwt auth r
        | none ↦ refused 500
      ]
    ]
  ]

  -- `handleRequestHeaders`
  unfoldable pub check_request_headers : ServerConfiguration → Request → Check
  unfolding check_authentication check_api_header check_content_type
  check_request_headers configuration r =
      and_then (check_authentication configuration r)
        (and_then (check_api_header r) (check_content_type r))
