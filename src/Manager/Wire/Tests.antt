-- ===== src/Manager/Wire/Tests.antt =====
-- Clients of the small application, byte by byte.
use optee_utee.Prelude.{◌≡◌, arith, true, List, [], ◌∷◌, ◌++◌, map, some}
use optee_utee.Manager.Protocol.{TeeRequest}
use optee_utee.Manager.{new, handle_request, handle_open_session, handle_invoke_command}
use optee_utee.Manager.Framing.{frame, read_message, read_message-frame}
use optee_utee.Manager.Sessions.{lookup, insert}
use optee_utee.Manager.Serving.{handle_ca_request}
use optee_utee.Manager.Tests.{counting, opens, no_params}
use optee_utee.Manager.Wire.{
  Client, asks, hangs_up, stream_of, serve_streams, read_response, connection_of, AllPossible,
  AllShort,
}
use optee_utee.Manager.Wire.Delivered.{serve_streams-handle_ca_request}
use optee_utee.Manager.Wire.Sample.{sample, sample-IsFaithful, encode_request, encode_response}

-- A session is opened and used, and then a client hangs up after two bytes.
abbrev clients : List Client
clients =
    asks opens [] true
    ∷ asks (TeeRequest.invoke_command 1 5 no_params) (9 ∷ []) true
    ∷ hangs_up (TeeRequest.close_session 1) 2
    ∷ []

possible : AllPossible sample clients
unfolding encode_request
possible = omega arith

short : AllShort sample (handle_ca_request counting (new 0) (map connection_of clients)).0
unfolding encode_response handle_ca_request handle_request handle_open_session handle_invoke_command
    new lookup insert
short = omega arith

serve_streams-handle_ca_request_example :
    let (got, n) = serve_streams sample counting (new 0) (map (stream_of sample) clients) in
    (map (read_response sample) got, n)
    ≡ handle_ca_request counting (new 0) (map connection_of clients)
serve_streams-handle_ca_request_example =
    serve_streams-handle_ca_request sample sample-IsFaithful counting (new 0) clients possible short

read_message-frame_example : read_message (frame (5 ∷ 6 ∷ []) ++ 9 ∷ []) ≡ some (5 ∷ 6 ∷ [], 9 ∷ [])
read_message-frame_example = read_message-frame (5 ∷ 6 ∷ []) (9 ∷ []) (omega arith)
