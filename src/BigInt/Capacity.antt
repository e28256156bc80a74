-- ===== src/BigInt/Capacity.antt =====
-- src/arithmetical.rs: whether a result has room for the number that is written to it.
use optee_utee.Prelude.{
  ℕ, zero, suc, sym, ap, ◌∙◌, ◌+◌, ◌-◌, ◌*◌, ◌%◌, ◌^◌, ◌<◌, ◌≤◌, ◌≡◌, max, arith, u32_mod, List,
  ◌∷◌, ◌++◌, length, replicate, drop, length-take, length-append, length-drop, length-replicate,
}
use native.Mathlib.Nat.{
  pow-le-pow_right, pow-suc, mul_assoc, mul-one, mul-lt-mul_of_pos_right, mul-le-mul_left,
  one-le-pow,
}
use optee_utee.BigInt.{
  BigInt, Call, Reply, written, size_in_u32, new, compute, get_bit_count, get_bit_count_call, add,
  sub, multiply, square, init,
}

-- The bits that a number has room for, behind its two words of metadata.
abbrev pub capacity : BigInt → ℕ
capacity n = 32 * (length n.words - 2)

length-written : (vec ws : List ℕ) → length (written vec ws) ≡ length vec
length-written vec ws = omega (
  arith,
  length-take (length vec) (ws ++ drop (length ws) vec),
  length-append ws (drop (length ws) vec),
  length-drop (length ws) vec,
)

-- A number below a power that fits is below the room.
below : {x bits room : ℕ} → x < 2 ^ bits → bits ≤ room → x < 2 ^ room
below lt le = omega (arith, lt, pow-le-pow_right {n = 2} (omega arith) le)

pow_add : (m n : ℕ) → 2 ^ (m + n) ≡ 2 ^ m * 2 ^ n
pow_add m zero = simp (mul-one) (ap (λ n. 2 ^ n) (omega arith))
pow_add m (suc n) =
    ap (λ k. 2 ^ k) (let q : m + suc n ≡ suc (m + n) = omega arith in q)
    ∙ pow-suc 2 (m + n)
    ∙ ap (λ z. z * 2) (pow_add m n)
    ∙ mul_assoc (2 ^ m) (2 ^ n) 2
    ∙ ap (λ z. 2 ^ m * z) (sym (pow-suc 2 n))

sum-below : {x y : ℕ} (m n : ℕ) → x < 2 ^ m → y < 2 ^ n → x + y < 2 ^ (max m n + 1)
sum-below {x = x} {y = y} m n lx ly =
    let bx = pow-le-pow_right {n = 2} (omega arith) {i = m} {j = max m n} (omega arith) in
    let by' = pow-le-pow_right {n = 2} (omega arith) {i = n} {j = max m n} (omega arith) in
    omega (arith, bx, by', lx, ly, pow_add (max m n) 1)

product-below : {x y : ℕ} (m n : ℕ) → x < 2 ^ m → y < 2 ^ n → x * y < 2 ^ (m + n)
product-below {x = x} {y = y} m n lx ly =
    let pos : 0 < 2 ^ n = omega (arith, one-le-pow n 2 (omega arith)) in
    let step = mul-lt-mul_of_pos_right {m = x} {n = 2 ^ m} {k = 2 ^ n} lx pos in
    omega (arith, step, mul-le-mul_left {m = y} {n = 2 ^ n} x (omega (arith, ly)), pow_add m n)

module _ (tee : List Call → Reply) where
  -- The result of a computation has the room of the number that it is written to.
  capacity-compute :
      (res : BigInt) (c : Call) (h : List Call) → capacity (compute tee res c h).0 ≡ capacity res
  unfolding compute
  capacity-compute res c h = omega (arith, length-written res.words (tee (c ∷ h)).words)

  -- A new number has room for the bits that it was asked for.
  capacity-new :
      (bits : ℕ) (h : List Call)
      → bits + 31 < u32_mod
      → (bits ≤ capacity (new tee bits h).0) × (capacity (new tee bits h).0 < bits + 32)
  unfolding new compute size_in_u32
  capacity-new bits h fits =
      let l =
        length-written (replicate (size_in_u32 bits) 0) (tee (init (size_in_u32 bits) ∷ h)).words in
      let r = length-replicate {A = ℕ} (size_in_u32 bits) 0 in
      (omega (arith, l, r, fits), omega (arith, l, r, fits))

  room :
      (bits : ℕ) (c : Call) (h h' : List Call)
      → bits + 31 < u32_mod
      → bits ≤ capacity (compute tee (new tee (bits % u32_mod) h).0 c h').0
  room bits c h h' fits =
      let w : bits % u32_mod ≡ bits = omega (arith, fits) in
      omega (
        arith,
        w,
        capacity-new (bits % u32_mod) h (omega (arith, fits, w)),
        capacity-compute (new tee (bits % u32_mod) h).0 c h',
      )

  -- The answers of the system to the two counts that an operation asks for, one after the other.
  abbrev pub count1 : BigInt → List Call → ℕ
  count1 op h = (tee (get_bit_count_call op.words ∷ h)).count

  abbrev pub count2 : BigInt → BigInt → List Call → ℕ
  count2 op1 op2 h = count1 op2 (get_bit_count_call op1.words ∷ h)

  -- If the two magnitudes are below the powers that the counts say, then their sum fits into the
  -- result of `add` and into that of `sub`, and their product into that of `multiply`; the square of
  -- the first fits into the result of `square`. The counts are small enough not to wrap.
  pub results_fit :
      (op1 op2 : BigInt) (h : List Call) (x y : ℕ)
      → x < 2 ^ count1 op1 h
      → y < 2 ^ count2 op1 op2 h
      → 2 * (count1 op1 h + count2 op1 op2 h) + 32 < u32_mod
      → (x + y < 2 ^ capacity (add tee op1 op2 h).0)
        × (x + y < 2 ^ capacity (sub tee op1 op2 h).0)
        × (x * y < 2 ^ capacity (multiply tee op1 op2 h).0)
        × (x * x < 2 ^ capacity (square tee op1 h).0)
  unfolding add sub multiply square get_bit_count compute new
  results_fit op1 op2 h x y lx ly fits = (
    below (sum-below (count1 op1 h) (count2 op1 op2 h) lx ly)
        (room (max (count1 op1 h) (count2 op1 op2 h) + 1) _ _ _ (omega (arith, fits))),
    below (sum-below (count1 op1 h) (count2 op1 op2 h) lx ly)
        (room (max (count1 op1 h) (count2 op1 op2 h) + 1) _ _ _ (omega (arith, fits))),
    below (product-below (count1 op1 h) (count2 op1 op2 h) lx ly)
        (room (count1 op1 h + count2 op1 op2 h) _ _ _ (omega (arith, fits))),
    below (product-below (count1 op1 h) (count1 op1 h) lx lx) (
        let r : 2 * count1 op1 h ≤ capacity (square tee op1 h).0 =
          room (2 * count1 op1 h) _ _ _ (omega (arith, fits)) in
        omega (arith, r)),
  )
