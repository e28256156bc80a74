-- ===== src/Net/System/Keeps.antt =====
-- src/net/optee.rs: the adapter of the system's TCP table keeps what the loops of a socket rely on.
use optee_utee.Prelude.{
  ℕ, zero, suc, ◌+◌, ◌%◌, ◌≤◌, ◌≡◌, refl, sym, ap, ap₂, ◌∙◌, arith, u32_mod, true, false, ◌==◌,
  ==_iff, Bool-cases, inl, inr, List, [], ◌∷◌, ◌++◌, append-nil, length, length-append, take, drop,
  take-append-drop,
}
use optee_utee.Codes.{tee_success, tee_isocket_error_protocol, tee_isocket_warning_protocol}
use optee_utee.Error.{ok, err}
use optee_utee.Net.Failure.{SocketError}
use optee_utee.Net.Adapter.{
  tcp, Call, send_call, recv_call, Reply, handle_socket_operation_error, send_buffer, recv_buffer,
  tcp_adapter,
}
use optee_utee.Net.WriteAll.{SendsPrefix}
use optee_utee.Net.ReadExact.{ReceivesPrefix}
use optee_utee.Net.System.{accepted, delivered, Transfers, pending}

==_self : (n : ℕ) → (n == n) ≡ true
==_self n = (==_iff n n).1 refl

zero_plus : (n : ℕ) → n ≡ 0 + n
zero_plus n = omega arith

suc_plus : (n k : ℕ) → suc (n + k) ≡ suc n + k
suc_plus n k = omega arith

drop-nil : (n : ℕ) → drop {A = ℕ} n [] ≡ []
drop-nil zero = refl
drop-nil (suc n) = refl

drop-drop : (n k : ℕ) (xs : List ℕ) → drop k (drop n xs) ≡ drop (n + k) xs
drop-drop zero k xs = ap (λ j. drop j xs) (zero_plus k)
drop-drop (suc n) k [] = drop-nil k ∙ sym (drop-nil (suc n + k))
drop-drop (suc n) k (x ∷ xs) = drop-drop n k xs ∙ ap (λ j. drop j (x ∷ xs)) (suc_plus n k)

-- What is left of a stream after the next `n` bytes.
next_bytes :
    (before bytes stream : List ℕ) (n : ℕ)
    → length bytes ≡ n
    → bytes ≡ take n (drop (length before) stream)
    → drop (length before) stream ≡ bytes ++ drop (length (before ++ bytes)) stream
next_bytes before bytes stream n exact next =
    let rest = drop (length before) stream in
    let behind : drop n rest ≡ drop (length (before ++ bytes)) stream =
      drop-drop (length before) n stream
      ∙ ap (λ k. drop k stream) (omega (arith, length-append before bytes)) in
    sym (take-append-drop n rest) ∙ ap₂ (λ xs ys. xs ++ ys) (sym next) behind

module _ (tee : List Call → Reply) (handle : ℕ) where
  -- Asking for the error of a handle sends and receives nothing.
  accepted_error :
      (code : ℕ) (h : List Call)
      → accepted tee handle (handle_socket_operation_error tee handle code h).1
        ≡ accepted tee handle h
  unfolding accepted handle_socket_operation_error
  accepted_error code h = elim (Bool-cases (code == tee_isocket_error_protocol)) [
    | inl a ↦ rw (a, handle_socket_operation_error) (append-nil _)
    | inr a ↦ elim (Bool-cases (code == tee_isocket_warning_protocol)) [
      | inl b ↦ rw (a, b, handle_socket_operation_error) (append-nil _)
      | inr b ↦ rw (a, b, handle_socket_operation_error) refl
    ]
  ]

  delivered_error :
      (code : ℕ) (h : List Call)
      → delivered tee handle (handle_socket_operation_error tee handle code h).1
        ≡ delivered tee handle h
  unfolding delivered handle_socket_operation_error
  delivered_error code h = elim (Bool-cases (code == tee_isocket_error_protocol)) [
    | inl a ↦ rw (a, handle_socket_operation_error) (append-nil _)
    | inr a ↦ elim (Bool-cases (code == tee_isocket_warning_protocol)) [
      | inl b ↦ rw (a, b, handle_socket_operation_error) (append-nil _)
      | inr b ↦ rw (a, b, handle_socket_operation_error) refl
    ]
  ]

  accepted-send :
      (buf : List ℕ) (len timeout : ℕ) (h : List Call)
      → let c = send_call tcp handle buf len timeout in
        (tee (c ∷ h)).code == tee_success ≡ true
        → accepted tee handle (c ∷ h) ≡ accepted tee handle h ++ take (tee (c ∷ h)).length buf
  unfolding accepted
  accepted-send buf len timeout h s = rw (==_self handle, s)

  delivered-recv :
      (len timeout : ℕ) (h : List Call)
      → let c = recv_call tcp handle len timeout in
        (tee (c ∷ h)).code == tee_success ≡ true
        → delivered tee handle (c ∷ h) ≡ delivered tee handle h ++ (tee (c ∷ h)).bytes
  unfolding delivered
  delivered-recv len timeout h s = rw (==_self handle, s)

  accepted-send_failed :
      (buf : List ℕ) (len timeout : ℕ) (h : List Call)
      → let c = send_call tcp handle buf len timeout in
        (tee (c ∷ h)).code == tee_success ≡ false
        → accepted tee handle (c ∷ h) ≡ accepted tee handle h
  unfolding accepted
  accepted-send_failed buf len timeout h s = rw (==_self handle, s) (append-nil _)

  delivered-recv_failed :
      (len timeout : ℕ) (h : List Call)
      → let c = recv_call tcp handle len timeout in
        (tee (c ∷ h)).code == tee_success ≡ false
        → delivered tee handle (c ∷ h) ≡ delivered tee handle h
  unfolding delivered
  delivered-recv_failed len timeout h s = rw (==_self handle, s) (append-nil _)

  module _ (stream : List ℕ) (law : Transfers tee handle stream) where
    send_buffer-sent :
        (buf : List ℕ) (timeout : ℕ) (h : List Call) (n : ℕ)
        → (send_buffer tee tcp handle buf timeout h).0 ≡ ok n
        → (n ≤ length buf)
          × (accepted tee handle (send_buffer tee tcp handle buf timeout h).1
              ≡ accepted tee handle h ++ take n buf)
    unfolding send_buffer
    send_buffer-sent buf timeout h n e =
        let len = length buf % u32_mod in
        let r = tee (send_call tcp handle buf len timeout ∷ h) in
        elim (Bool-cases (r.code == tee_success)) [
          | inl s ↦
              let q : r.length ≡ n = cc (rw (s, send_buffer) at e) in
              let bound = law.sends buf len timeout h ((==_iff _ _).0 s) in
              (
                omega arith,
                rw (s, send_buffer)
                    (accepted-send buf len timeout h s
                      ∙ ap (λ k. accepted tee handle h ++ take k buf) q),
              )
          | inr s ↦ absurd (cc (rw (s, send_buffer) at e))
        ]

    send_buffer-unsent :
        (buf : List ℕ) (timeout : ℕ) (h : List Call) (x : SocketError)
        → (send_buffer tee tcp handle buf timeout h).0 ≡ err x
        → accepted tee handle (send_buffer tee tcp handle buf timeout h).1 ≡ accepted tee handle h
    unfolding send_buffer
    send_buffer-unsent buf timeout h x e =
        let len = length buf % u32_mod in
        let c = send_call tcp handle buf len timeout in
        elim (Bool-cases ((tee (c ∷ h)).code == tee_success)) [
          | inl s ↦ absurd (cc (rw (s, send_buffer) at e))
          | inr s ↦
              rw (s, send_buffer)
                (accepted_error (tee (c ∷ h)).code (c ∷ h)
                  ∙ accepted-send_failed buf len timeout h s)
        ]

    recv_buffer-received :
        (len timeout : ℕ) (h : List Call) (n : ℕ)
        → (recv_buffer tee tcp handle len timeout h).0 ≡ ok n
        → (n ≤ len)
          × (length (recv_buffer tee tcp handle len timeout h).1 ≡ n)
          × (pending tee handle stream h
              ≡ (recv_buffer tee tcp handle len timeout h).1
                ++ pending tee handle stream (recv_buffer tee tcp handle len timeout h).2)
    unfolding recv_buffer pending
    recv_buffer-received len timeout h n e =
        let c = recv_call tcp handle (len % u32_mod) timeout in
        let r = tee (c ∷ h) in
        let before = delivered tee handle h in
        elim (Bool-cases (r.code == tee_success)) [
          | inl s ↦
              let q : r.length ≡ n = cc (rw (s, recv_buffer) at e) in
              let (short, exact, next) =
                law.receives (len % u32_mod) timeout h ((==_iff _ _).0 s) in
              (
                omega arith,
                rw (s, recv_buffer) (exact ∙ q),
                rw (s, recv_buffer)
                    (next_bytes before r.bytes stream r.length exact next
                      ∙ ap (λ xs. r.bytes ++ drop (length xs) stream)
                          (sym (delivered-recv (len % u32_mod) timeout h s))),
              )
          | inr s ↦ absurd (cc (rw (s, recv_buffer) at e))
        ]

    recv_buffer-unreceived :
        (len timeout : ℕ) (h : List Call) (x : SocketError)
        → (recv_buffer tee tcp handle len timeout h).0 ≡ err x
        → pending tee handle stream (recv_buffer tee tcp handle len timeout h).2
          ≡ pending tee handle stream h
    unfolding recv_buffer pending
    recv_buffer-unreceived len timeout h x e =
        let c = recv_call tcp handle (len % u32_mod) timeout in
        elim (Bool-cases ((tee (c ∷ h)).code == tee_success)) [
          | inl s ↦ absurd (cc (rw (s, recv_buffer) at e))
          | inr s ↦
              rw (s, recv_buffer)
                (ap (λ xs. drop (length xs) stream)
                  (delivered_error (tee (c ∷ h)).code (c ∷ h)
                    ∙ delivered-recv_failed (len % u32_mod) timeout h s))
        ]

pub tcp-SendsPrefix :
    (tee : List Call → Reply) (handle : ℕ) (stream : List ℕ)
    → Transfers tee handle stream
    → SendsPrefix (tcp_adapter tee) handle (accepted tee handle)
unfolding tcp_adapter
tcp-SendsPrefix tee handle stream law = record {
  sent = send_buffer-sent tee handle stream law;
  unsent = send_buffer-unsent tee handle stream law;
}

pub tcp-ReceivesPrefix :
    (tee : List Call → Reply) (handle : ℕ) (stream : List ℕ)
    → Transfers tee handle stream
    → ReceivesPrefix (tcp_adapter tee) handle (pending tee handle stream)
unfolding tcp_adapter
tcp-ReceivesPrefix tee handle stream law = record {
  received = recv_buffer-received tee handle stream law;
  unreceived = recv_buffer-unreceived tee handle stream law;
}
