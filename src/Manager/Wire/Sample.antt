-- ===== src/Manager/Wire/Sample.antt =====
-- A codec that keeps the promises of bincode: one number for a tag, a length or a field.
use optee_utee.Prelude.{
  ℕ, zero, suc, ◌≡◌, refl, List, [], ◌∷◌, ◌++◌, some, none, Option, length, take, drop, take-append,
  drop-append,
}
use optee_utee.Param.{ParamType, type_to_u32, type_from_u32}
use optee_utee.TeeParams.Pack.{type_from_u32-type_to_u32}
use optee_utee.Manager.Protocol.{Parameter, Parameters, TeeRequest, TeeResponse}
use optee_utee.Manager.Wire.{Codec, IsFaithful}

put_param : Parameter → List ℕ → List ℕ
put_param p rest =
    length p.param.bytes
    ∷ (p.param.bytes ++ (p.param.values.a ∷ p.param.values.b ∷ type_to_u32 p.param_type ∷ rest))

fields : List ℕ → List ℕ → Parameter × List ℕ
fields bytes (a ∷ b ∷ t ∷ rest) = (
  record {
    param = record { bytes = bytes; values = record { a = a; b = b } };
    param_type = type_from_u32 t;
  },
  rest,
)
fields bytes rest = (
  record {
    param = record { bytes = bytes; values = record { a = 0; b = 0 } };
    param_type = ParamType.none;
  },
  [],
)

get_param : List ℕ → Parameter × List ℕ
unfolding fields
get_param [] = fields [] []
get_param (n ∷ xs) = fields (take n xs) (drop n xs)

get_param-put_param : (p : Parameter) (rest : List ℕ) → get_param (put_param p rest) ≡ (p, rest)
unfolding get_param put_param
get_param-put_param p rest =
    let more = p.param.values.a ∷ p.param.values.b ∷ type_to_u32 p.param_type ∷ rest in
    rw (take-append p.param.bytes more, drop-append p.param.bytes more)
      (rw (type_from_u32-type_to_u32 p.param_type))

put_params : Parameters → List ℕ
unfolding put_param
put_params ps = put_param ps.e0 (put_param ps.e1 (put_param ps.e2 (put_param ps.e3 [])))

get_params : List ℕ → Parameters
get_params xs =
    let (p0, xs1) = get_param xs in
    let (p1, xs2) = get_param xs1 in
    let (p2, xs3) = get_param xs2 in record { e0 = p0; e1 = p1; e2 = p2; e3 = (get_param xs3).0 }

get_params-put_params : (ps : Parameters) → get_params (put_params ps) ≡ ps
unfolding get_params put_params
get_params-put_params ps = simp (get_param-put_param)

unfoldable pub encode_request : TeeRequest → List ℕ
unfolding put_params
encode_request (TeeRequest.open_session uuid connection_method params) =
    0 ∷ connection_method ∷ length uuid ∷ (uuid ++ put_params params)
encode_request (TeeRequest.close_session id) = 1 ∷ id ∷ []
encode_request (TeeRequest.invoke_command id cmd_id params) = 2 ∷ id ∷ cmd_id ∷ put_params params
encode_request (TeeRequest.request_cancellation id) = 3 ∷ id ∷ []

decode_fields : ℕ → List ℕ → Option TeeRequest
decode_fields zero (connection_method ∷ n ∷ xs) =
    some (TeeRequest.open_session (take n xs) connection_method (get_params (drop n xs)))
decode_fields (suc zero) (id ∷ xs) = some (TeeRequest.close_session id)
decode_fields (suc (suc zero)) (id ∷ cmd_id ∷ xs) =
    some (TeeRequest.invoke_command id cmd_id (get_params xs))
decode_fields (suc (suc (suc zero))) (id ∷ xs) = some (TeeRequest.request_cancellation id)
decode_fields tag xs = none

pub decode_request : List ℕ → Option (TeeRequest × ℕ)
unfolding decode_fields
decode_request [] = none
decode_request (tag ∷ xs) = elim (decode_fields tag xs) [
  | none ↦ none
  | some r ↦ some (r, length (tag ∷ xs))
]

decode_request-encode_request :
    (r : TeeRequest) → decode_request (encode_request r) ≡ some (r, length (encode_request r))
unfolding decode_request encode_request
decode_request-encode_request (TeeRequest.open_session uuid connection_method params) =
    rw (take-append uuid (put_params params), drop-append uuid (put_params params))
      (rw (get_params-put_params params))
decode_request-encode_request (TeeRequest.close_session id) = refl
decode_request-encode_request (TeeRequest.invoke_command id cmd_id params) =
    rw (get_params-put_params params)
decode_request-encode_request (TeeRequest.request_cancellation id) = refl

unfoldable pub encode_response : TeeResponse → List ℕ
unfolding put_params
encode_response (TeeResponse.open_session id result) = 0 ∷ id ∷ result ∷ []
encode_response (TeeResponse.close_session result) = 1 ∷ result ∷ []
encode_response (TeeResponse.invoke_command params result) = 2 ∷ result ∷ put_params params
encode_response (TeeResponse.request_cancellation result) = 3 ∷ result ∷ []

pub decode_response : List ℕ → Option (TeeResponse × ℕ)
decode_response (zero ∷ id ∷ result ∷ xs) =
    some (TeeResponse.open_session id result, length (zero ∷ id ∷ result ∷ xs))
decode_response (suc zero ∷ result ∷ xs) =
    some (TeeResponse.close_session result, length (suc zero ∷ result ∷ xs))
decode_response (suc (suc zero) ∷ result ∷ xs) =
    some (TeeResponse.invoke_command (get_params xs) result, length (suc (suc zero) ∷ result ∷ xs))
decode_response (suc (suc (suc zero)) ∷ result ∷ xs) =
    some (TeeResponse.request_cancellation result, length (suc zero ∷ result ∷ xs))
decode_response xs = none

decode_response-encode_response :
    (q : TeeResponse) → decode_response (encode_response q) ≡ some (q, length (encode_response q))
unfolding decode_response encode_response
decode_response-encode_response (TeeResponse.open_session id result) = refl
decode_response-encode_response (TeeResponse.close_session result) = refl
decode_response-encode_response (TeeResponse.invoke_command params result) =
    rw (get_params-put_params params)
decode_response-encode_response (TeeResponse.request_cancellation result) = refl

abbrev pub sample : Codec
sample = record {
  encode_request = encode_request;
  decode_request = decode_request;
  encode_response = λ q. some (encode_response q);
  decode_response = decode_response;
}

pub sample-IsFaithful : IsFaithful sample
sample-IsFaithful = record {
  requests = decode_request-encode_request;
  responses = λ q. (encode_response q, refl, decode_response-encode_response q);
}
