-- ===== src/Manager/Wire/Delivered.antt =====
-- ta_manager/src/lib.rs: clients and the manager understand one another's bytes.
use optee_utee.Prelude.{
  ℕ, ◌<◌, u32_mod, ◌≡◌, refl, sym, ap, ◌∙◌, Bool, true, false, List, [], ◌∷◌, map, none, some,
  length, append-nil,
}
use optee_utee.Manager.Protocol.{TeeRequest, TeeResponse}
use optee_utee.Manager.Framing.{frame, read_message, read_message-frame, read_message-cut}
use optee_utee.Manager.{TrustedApplication, Manager, Answer, replies, fails, panics, handle_request}
use optee_utee.Manager.Serving.{answered, handle_ca_request}
use optee_utee.Manager.Wire.{
  Codec, IsFaithful, Served, written, decoded, receive_request, send_response, goes_on,
  serve_streams, Client, asks, hangs_up, unaccepted, stream_of, IsPossible, AllPossible, IsShort,
  AllShort, understood, read_response, connection_of,
}

module _ (c : Codec) (faithful : IsFaithful c) where
  receive_request-stream_of :
      (r : TeeRequest) (more : List ℕ) (takes : Bool)
      → IsPossible c (asks r more takes)
      → receive_request c (stream_of c (asks r more takes)) ≡ some r
  unfolding receive_request
  receive_request-stream_of r more takes h =
      rw (read_message-frame (c.encode_request r) more h) (rw (faithful.requests r, decoded))

  receive_request-hangs_up :
      (r : TeeRequest) (sent : ℕ)
      → IsPossible c (hangs_up r sent)
      → receive_request c (stream_of c (hangs_up r sent)) ≡ none
  unfolding receive_request
  receive_request-hangs_up r sent h = rw (read_message-cut sent (c.encode_request r) h.0 h.1)

  read_response-send_response :
      (q : TeeResponse)
      → IsShort c (replies q)
      → (bytes : List ℕ) × (send_response c true (replies q) ≡ written bytes)
        × (read_response c (written bytes) ≡ replies q)
  unfolding send_response read_response
  read_response-send_response q short =
      let (bytes, encodes, decodes) = faithful.responses q in
      let short' : length bytes < u32_mod = rw (encodes, IsShort) at short in
      let framed : read_message (frame bytes) ≡ some (bytes, []) =
        ap read_message (sym (append-nil (frame bytes))) ∙ read_message-frame bytes [] short' in
      (frame bytes, rw (encodes, send_response), rw framed (rw (decodes, understood)))

  module _ {S C : Type 0} where
    -- The loop over answers and the one over bytes go on together.
    abbrev Tells : List Served × Manager S C → List Answer × Manager S C → Type 0
    Tells got want = (map (read_response c) got.0, got.1) ≡ want

    goes_on-answered :
        (a : Answer) (w : Bool) (n : Manager S C) (got : List Served × Manager S C)
        (want : List Answer × Manager S C)
        → AllShort c (answered a w n want).0
        → (AllShort c want.0 → Tells got want)
        → Tells (goes_on c (send_response c w a) n got) (answered a w n want)
    unfolding goes_on answered send_response read_response
    goes_on-answered (replies q) true n got want short ih =
        let (bytes, sends, reads) = read_response-send_response q short.0 in
        let rest = ih short.1 in rw sends (λ i. (reads i ∷ (rest i).0, (rest i).1))
    goes_on-answered (replies q) false n got want short ih =
        let (bytes, encodes, decodes) = faithful.responses q in rw (encodes, send_response)
    goes_on-answered fails w n got want short ih = refl
    goes_on-answered panics w n got want short ih = refl

    -- Clients that send their requests as bytes read back, as bytes, the answers of the loop over
    -- requests, and the manager is left the same. So it is whatever they send behind a request; and
    -- a client that hangs up before its request is whole, or that the listener fails on, ends the
    -- loop with an error. bincode keeps its promises, and all messages have less than 2^32 bytes.
    pub serve_streams-handle_ca_request :
        (ta : TrustedApplication S C) (m : Manager S C) (clients : List Client)
        → AllPossible c clients
        → AllShort c (handle_ca_request ta m (map connection_of clients)).0
        → let (got, n) = serve_streams c ta m (map (stream_of c) clients) in
          (map (read_response c) got, n) ≡ handle_ca_request ta m (map connection_of clients)
    unfolding serve_streams handle_ca_request read_response
    serve_streams-handle_ca_request ta m [] possible short = refl
    serve_streams-handle_ca_request ta m (asks r more takes ∷ ks) possible short =
        let n = (handle_request ta m r).1 in
        rw (receive_request-stream_of r more takes possible.0, serve_streams)
          (goes_on-answered (handle_request ta m r).0 takes n _ _ short
            (λ short'. serve_streams-handle_ca_request ta n ks possible.1 short'))
    serve_streams-handle_ca_request ta m (hangs_up r sent ∷ ks) possible short =
        rw (receive_request-hangs_up r sent possible.0, serve_streams)
    serve_streams-handle_ca_request ta m (unaccepted ∷ ks) possible short =
        unfold receive_request in refl
