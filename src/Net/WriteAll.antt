-- ===== src/Net/WriteAll.antt =====
-- src/net/optee_no_std.rs: `write_all` sends the buffer, in order and once.
use optee_utee.Prelude.{
  ℕ, zero, suc, ◌≤◌, ◌<◌, ◌≡◌, ◌≢◌, refl, sym, ap, ◌∙◌, ◌⊎◌, inl, inr, arith, ltb, ◌==◌, List, [],
  ◌∷◌, ◌++◌, append-nil, append_assoc, Option, some, length, take, drop, length-drop,
  take-append-drop, Outcome, returns, Bool-cases, ==_iff, false,
}
use optee_utee.Error.{ErrorKind, Result, ok, err, Result-cases}
use optee_utee.Net.Failure.{SocketError, tee}
use optee_utee.Net.{SocketAdapter, Socket, send, write_rounds, write_all}

-- What the caller of an adapter relies on: a send accepts as many bytes from the start of the buffer
-- as it says, and at most all of them; a send that fails accepts none. `accepted` are the bytes that
-- the network has taken so far from the handle.
pub record SendsPrefix {W Setup H : Type 0} (adapter : SocketAdapter W Setup H) (h : H)
    (accepted : W → List ℕ) : Type 0 where
  pub sent :
      (buf : List ℕ) (timeout : ℕ) (w : W) (n : ℕ)
      → (adapter.send h buf timeout w).0 ≡ ok n
      → (n ≤ length buf) × (accepted (adapter.send h buf timeout w).1 ≡ accepted w ++ take n buf)
  pub unsent :
      (buf : List ℕ) (timeout : ℕ) (w : W) (e : SocketError)
      → (adapter.send h buf timeout w).0 ≡ err e
      → accepted (adapter.send h buf timeout w).1 ≡ accepted w

module _ {W Setup H : Type 0} (adapter : SocketAdapter W Setup H) (accepted : W → List ℕ)
    (s : Socket H) (law : SendsPrefix adapter s.handle accepted) where
  -- What `write_all` leaves: it returns; either the network has taken the whole buffer, or there is
  -- an error, and the network has taken the part of the buffer before some `rest`.
  abbrev pub Written : List ℕ → W → Option (Outcome (Result SocketError (Unit {0})) × W) → Type 0
  Written buf w r =
      (w' : W) × (((r ≡ some (returns (ok tt), w')) × (accepted w' ≡ accepted w ++ buf))
        ⊎ ((e : SocketError) × (r ≡ some (returns (err e), w'))
            × ((part rest : List ℕ) × (buf ≡ part ++ rest) × (accepted w' ≡ accepted w ++ part))))

  -- A round that has sent `part` and leaves `rest` for the next ones.
  Written-round :
      (part rest : List ℕ) (w w₁ : W) (r : Option (Outcome (Result SocketError (Unit {0})) × W))
      → accepted w₁ ≡ accepted w ++ part
      → Written rest w₁ r
      → Written (part ++ rest) w r
  Written-round part rest w w₁ r a (w', inl (e, b)) =
      (w', inl (e, rw (b, a) (append_assoc (accepted w) part rest)))
  Written-round part rest w w₁ r a (w', inr (x, e, (first, after, c, b))) = (
    w',
    inr (
      x,
      e,
      (
        part ++ first,
        after,
        rw c (sym (append_assoc part first after)),
        rw (b, a) (append_assoc (accepted w) part first),
      ),
    ),
  )

  Written-swap :
      {buf buf' : List ℕ} (w : W) {r r' : Option (Outcome (Result SocketError (Unit {0})) × W)}
      → buf ≡ buf'
      → r ≡ r'
      → Written buf' w r'
      → Written buf w r
  Written-swap w p q z = rw (p, q) z

  -- One round, for a send that is told to have accepted `n` bytes.
  round-Written :
      (fuel n : ℕ) (b : ℕ) (buf : List ℕ) (w : W)
      → (send adapter s (b ∷ buf) w).0 ≡ ok n
      → (n ≢ 0
          → Written
              (drop n (b ∷ buf))
              (send adapter s (b ∷ buf) w).1
              (write_rounds adapter fuel s (drop n (b ∷ buf)) (send adapter s (b ∷ buf) w).1))
      → Written (b ∷ buf) w (write_rounds adapter (suc fuel) s (b ∷ buf) w)
  unfolding write_rounds send
  round-Written fuel n b buf w e rest =
      let bound = law.sent (b ∷ buf) s.send_timeout w n e in
      elim (Bool-cases (n == 0)) [
        | inl z ↦ (
          (send adapter s (b ∷ buf) w).1,
          inr (
            tee ErrorKind.generic,
            rw (e, z, write_rounds),
            (
              [],
              b ∷ buf,
              refl,
              bound.1 ∙ ap (λ k. accepted w ++ take k (b ∷ buf)) ((==_iff n 0).0 z),
            ),
          ),
        )
        | inr z ↦
            let nz : n ≢ 0 = λ q. ground arith in
            let lt : ltb (suc (length buf)) n ≡ false = ground (arith, bound.0) in
            Written-swap w (sym (take-append-drop n (b ∷ buf))) (rw (e, z, lt, write_rounds)) (
              Written-round (take n (b ∷ buf)) (drop n (b ∷ buf)) w (send adapter s (b ∷ buf) w).1
                (write_rounds adapter fuel s (drop n (b ∷ buf)) (send adapter s (b ∷ buf) w).1)
                bound.1 (rest nz))
      ]

  write_rounds-Written :
      (fuel : ℕ) (buf : List ℕ) (w : W)
      → length buf < fuel
      → Written buf w (write_rounds adapter fuel s buf w)
  unfolding write_rounds send
  write_rounds-Written zero buf w h = absurd (omega arith)
  write_rounds-Written (suc fuel) [] w h = (w, inl (refl, sym (append-nil (accepted w))))
  write_rounds-Written (suc fuel) (b ∷ buf) w h =
      elim (Result-cases (send adapter s (b ∷ buf) w).0) [
        | inl (n, e) ↦ round-Written fuel n b buf w e (λ nz.
            write_rounds-Written fuel (drop n (b ∷ buf)) (send adapter s (b ∷ buf) w).1
              (omega (arith, length-drop n (b ∷ buf))))
        | inr (x, e) ↦ (
          (send adapter s (b ∷ buf) w).1,
          inr (
            x,
            rw (e, write_rounds),
            (
              [],
              b ∷ buf,
              refl,
              law.unsent (b ∷ buf) s.send_timeout w x e ∙ sym (append-nil (accepted w)),
            ),
          ),
        )
      ]

  -- `write_all` returns on every buffer, within as many rounds as the buffer has bytes: after `Ok`
  -- the network has taken the whole buffer, in order and once; after an error it has taken the part
  -- of the buffer before some rest, and no more. The adapter is one that keeps `SendsPrefix`.
  pub write_all-Written : (buf : List ℕ) (w : W) → Written buf w (write_all adapter s buf w)
  unfolding write_all
  write_all-Written buf w = write_rounds-Written (suc (length buf)) buf w (omega arith)
