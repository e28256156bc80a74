-- ===== src/Net/ReadExact.antt =====
-- src/net/optee_no_std.rs: `read_exact` fills the buffer with the next bytes of the stream.
use optee_utee.Prelude.{
  ℕ, zero, suc, ◌-◌, ◌≤◌, ◌<◌, ◌≡◌, ◌≢◌, refl, sym, ap, ◌∙◌, ◌⊎◌, inl, inr, arith, ltb, ◌==◌, List,
  [], ◌∷◌, ◌++◌, append-nil, append_assoc, Option, some, length, length-append, Outcome, returns,
  Bool-cases, ==_iff, false,
}
use optee_utee.Error.{ErrorKind, Result, ok, err, Result-cases}
use optee_utee.Net.Failure.{SocketError, tee}
use optee_utee.Net.{SocketAdapter, Socket, recv, read_rounds, read_exact}

-- What the caller of an adapter relies on: a receive takes as many bytes off the stream as it says,
-- at most as many as the buffer has room for, and puts them into the buffer in order; a receive that
-- fails takes none. `pending` are the bytes that the network has yet to deliver to the handle.
pub record ReceivesPrefix {W Setup H : Type 0} (adapter : SocketAdapter W Setup H) (h : H)
    (pending : W → List ℕ) : Type 0 where
  pub received :
      (len timeout : ℕ) (w : W) (n : ℕ)
      → (adapter.recv h len timeout w).0 ≡ ok n
      → (n ≤ len)
        × (length (adapter.recv h len timeout w).1 ≡ n)
        × (pending w ≡ (adapter.recv h len timeout w).1 ++ pending (adapter.recv h len timeout w).2)
  pub unreceived :
      (len timeout : ℕ) (w : W) (e : SocketError)
      → (adapter.recv h len timeout w).0 ≡ err e
      → pending (adapter.recv h len timeout w).2 ≡ pending w

empty : (xs : List ℕ) → length xs ≡ 0 → xs ≡ []
empty [] e = refl
empty (x ∷ xs) e = absurd (omega (arith, e))

-- The state of a loop: the bytes in the buffer, and what is outside.
abbrev pub Run : Type 0 → Type 0
Run W = Option (Outcome (Result SocketError (Unit {0})) × List ℕ × W)

module _ {W Setup H : Type 0} (adapter : SocketAdapter W Setup H) (pending : W → List ℕ)
    (s : Socket H) (law : ReceivesPrefix adapter s.handle pending) where
  -- What the loop leaves, that started with `got` and `len` bytes to read: it returns; it has added
  -- the next bytes of the stream, and no byte is lost; exactly `len` of them after `Ok`, and fewer
  -- after an error.
  abbrev pub Read : ℕ → List ℕ → W → Run W → Type 0
  Read len got w r =
      (bytes : List ℕ) × ((w' : W) × ((pending w ≡ bytes ++ pending w')
          × (((r ≡ some (returns (ok tt), got ++ bytes, w')) × (length bytes ≡ len))
              ⊎ ((e : SocketError) × (r ≡ some (returns (err e), got ++ bytes, w'))
                  × (length bytes < len)))))

  Read-swap :
      (len : ℕ) (got : List ℕ) (w : W) {r r' : Run W}
      → r ≡ r'
      → Read len got w r'
      → Read len got w r
  Read-swap len got w q z = rw q z

  -- A round that has read `first`, and the rounds after it.
  Read-round :
      (n len : ℕ) (first got : List ℕ) (w w₁ : W) (r : Run W)
      → length first ≡ n
      → n ≤ len
      → pending w ≡ first ++ pending w₁
      → Read (len - n) (got ++ first) w₁ r
      → Read len got w r
  Read-round n len first got w w₁ r l b p (bytes, (w', (q, c))) = (
    first ++ bytes,
    (
      w',
      (
        rw (p, q) (sym (append_assoc first bytes (pending w'))),
        elim c [
          | inl (e, m) ↦ inl (
            e ∙ ap (λ g. some (returns (ok tt), g, w')) (append_assoc got first bytes),
            omega (arith, length-append first bytes),
          )
          | inr (x, e, m) ↦ inr (
            x,
            e ∙ ap (λ g. some (returns (err x), g, w')) (append_assoc got first bytes),
            omega (arith, length-append first bytes),
          )
        ],
      ),
    ),
  )

  -- One round, for a receive that is told to have read `n` bytes.
  round-Read :
      (fuel n len : ℕ) (got : List ℕ) (w : W)
      → (recv adapter s (suc len) w).0 ≡ ok n
      → (n ≢ 0
          → Read
              (suc len - n)
              (got ++ (recv adapter s (suc len) w).1)
              (recv adapter s (suc len) w).2
              (read_rounds adapter fuel s
                (suc len - n)
                (got ++ (recv adapter s (suc len) w).1)
                (recv adapter s (suc len) w).2))
      → Read (suc len) got w (read_rounds adapter (suc fuel) s (suc len) got w)
  unfolding read_rounds recv
  round-Read fuel n len got w e rest =
      let bound = law.received (suc len) s.recv_timeout w n e in
      elim (Bool-cases (n == 0)) [
        | inl z ↦ (
          [],
          (
            (recv adapter s (suc len) w).2,
            (
              bound.2
                  ∙ ap (λ xs. xs ++ pending (recv adapter s (suc len) w).2)
                      (empty (recv adapter s (suc len) w).1 (bound.1 ∙ (==_iff n 0).0 z)),
              inr (tee ErrorKind.generic, rw (e, z, read_rounds, append-nil got), omega arith),
            ),
          ),
        )
        | inr z ↦
            let nz : n ≢ 0 = λ q. ground arith in
            let lt : ltb (suc len) n ≡ false = ground (arith, bound.0) in
            Read-swap (suc len) got w (rw (e, z, lt, read_rounds)) (
              Read-round n (suc len) (recv adapter s (suc len) w).1 got w
                (recv adapter s (suc len) w).2 _ bound.1 bound.0 bound.2 (rest nz))
      ]

  read_rounds-Read :
      (fuel len : ℕ) (got : List ℕ) (w : W)
      → len < fuel
      → Read len got w (read_rounds adapter fuel s len got w)
  unfolding read_rounds recv
  read_rounds-Read zero len got w h = absurd (omega arith)
  read_rounds-Read (suc fuel) zero got w h =
      ([], (w, (refl, inl (ap (λ g. some (returns (ok tt), g, w)) (sym (append-nil got)), refl))))
  read_rounds-Read (suc fuel) (suc len) got w h =
      elim (Result-cases (recv adapter s (suc len) w).0) [
        | inl (n, e) ↦
            round-Read fuel n len got w e
              (λ nz. read_rounds-Read fuel (suc len - n) _ _ (omega arith))
        | inr (x, e) ↦ (
          [],
          (
            (recv adapter s (suc len) w).2,
            (
              sym (law.unreceived (suc len) s.recv_timeout w x e),
              inr (x, rw (e, read_rounds, append-nil got), omega arith),
            ),
          ),
        )
      ]

  -- `read_exact` returns on every buffer, within as many rounds as the buffer has room for bytes:
  -- the buffer starts with the next bytes of the stream, none is lost or repeated, and after `Ok`
  -- they are exactly as many as the buffer has room for, after an error fewer. The adapter is one
  -- that keeps `ReceivesPrefix`.
  pub read_exact-Read : (len : ℕ) (w : W) → Read len [] w (read_exact adapter s len w)
  unfolding read_exact
  read_exact-Read len w = read_rounds-Read (suc len) len [] w (omega arith)
