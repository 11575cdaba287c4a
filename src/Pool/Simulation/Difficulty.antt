-- ===== src/Pool/Simulation/Difficulty.antt =====
-- What libpoolprotocols/testing/SimulateClient.cpp hands on after a solution, and how hard it is.
use prog_po_w_miner.Common.{
  ℕ, zero, suc, ◌+◌, ◌-◌, ◌*◌, ◌/◌, ◌%◌, ◌^◌, ◌≤◌, ◌<◌, ◌≡◌, refl, sym, ◌∙◌, ap, [], ◌∷◌, ◌++◌,
  true, false, ltb, ◌==◌, if◌then◌else◌, Bool-cases, inl, inr, arith,
}
use prog_po_w_miner.Common.Integers.{ℤ}
use prog_po_w_miner.Mining.Work.{Solution}
use prog_po_w_miner.Pool.Simulation.{
  Signal, handler_work, handler_accepted, handler_rejected, Simulate, signal, submit_solution,
  seconds, adjusted, shifted, boundary, simulate_round,
}
use native.Mathlib.Nat.{pow-suc, one-le-pow, mod-eq_of_lt, mul-div_cancel}

power : {m n : ℕ} → m ≡ n → 2 ^ m ≡ 2 ^ n
power e = ap (λ m. 2 ^ m) e

some_power : (d : ℕ) → 0 < 2 ^ d
some_power d = one-le-pow d 2 (omega arith)

pow-add : (k d : ℕ) → 2 ^ (k + d) ≡ 2 ^ k * 2 ^ d
pow-add zero d = omega (arith, power {m = 0 + d} {n = d} (omega arith))
pow-add (suc k) d =
    power (omega arith) ∙ pow-suc 2 (k + d) ∙ grind (arith, pow-add k d, pow-suc 2 k)

pow-lt : (k d : ℕ) → 0 < k → 2 ^ d < 2 ^ (k + d)
pow-lt zero d l = absurd (omega (arith, l))
pow-lt (suc zero) d l =
    omega (arith, power {m = 1 + d} {n = suc d} (omega arith), pow-suc 2 d, some_power d)
pow-lt (suc (suc k)) d l = omega (
  arith,
  power {m = suc (suc k) + d} {n = suc (suc k + d)} (omega arith),
  pow-suc 2 (suc k + d),
  pow-lt (suc k) d (omega arith),
)

-- A difficulty of 2 ^ d has the boundary 2 ^ (n - d) among the numbers of n bits.
quotient : (n d : ℕ) → 0 < d → d < n → 2 ^ n / (2 ^ d % 2 ^ n) % 2 ^ n * 2 ^ d ≡ 2 ^ n
quotient n d positive small =
    coe 0 1 (i. 2 ^ whole i / (2 ^ d % 2 ^ whole i) % 2 ^ whole i * 2 ^ d ≡ 2 ^ whole i) split
  where
    k : ℕ
    k = n - d

    whole : k + d ≡ n
    whole = omega (arith, small)

    split : 2 ^ (k + d) / (2 ^ d % 2 ^ (k + d)) % 2 ^ (k + d) * 2 ^ d ≡ 2 ^ (k + d)
    split =
        let below : 2 ^ d < 2 ^ (k + d) = pow-lt k d (omega (arith, small)) in
        let other : 2 ^ k < 2 ^ (k + d) =
          omega (arith, power {m = d + k} {n = k + d} (omega arith), pow-lt d k positive) in
        rw
          (
            mod-eq_of_lt below,
            pow-add k d,
            mul-div_cancel (2 ^ k) (one-le-pow d 2 (omega arith)),
            sym (pow-add k d),
            mod-eq_of_lt other,
          )
          (sym (pow-add k d))

boundary-shifted : (d : ℕ) → 0 < d → d < 256 → boundary (shifted d) * 2 ^ d ≡ 2 ^ 256
unfolding boundary shifted
boundary-shifted d positive small = rw nonzero (quotient 256 d positive small)
  where
    below : 2 ^ d < 2 ^ 256
    below = omega (
      arith,
      power {m = (256 - d) + d} {n = 256} (omega (arith, small)),
      pow-lt (256 - d) d (omega (arith, small)),
    )

    nonzero : (2 ^ d % 2 ^ 256 == 0) ≡ false
    nonzero = rw (mod-eq_of_lt below) (ground (arith, some_power d))

adjusted-near : (sec d : ℕ) → 1 < d → d < 255 → (adjusted sec d ≤ d + 1) × (d ≤ adjusted sec d + 1)
unfolding adjusted
adjusted-near sec d l h = elim (Bool-cases (ltb sec 12)) [
  | inl quick ↦ elim (Bool-cases (ltb 18 sec)) [
    | inl slow ↦ rw (quick, slow) (omega arith, omega arith)
    | inr a ↦ rw (quick, a) (omega (arith, l, h), omega (arith, l, h))
  ]
  | inr b ↦ elim (Bool-cases (ltb 18 sec)) [
    | inl slow ↦ rw (b, slow) (omega (arith, l, h), omega (arith, l, h))
    | inr a ↦ rw (b, a) (omega arith, omega arith)
  ]
]

-- The client answers a solution in one of two ways.
abbrev pub verdict : (ℤ → ℕ → ℕ → ℕ) → Solution → Signal
verdict eval sol =
    if ltb (eval sol.work.epoch sol.work.header sol.nonce) sol.work.boundary
    then handler_accepted false
    else handler_rejected false

submit_solution_lem :
    (eval : ℤ → ℕ → ℕ → ℕ) (sol : Solution) (s : Simulate)
    → submit_solution eval sol s
      ≡ record s { upp_difficulty = true; signals = s.signals ++ (verdict eval sol ∷ []) }
unfolding submit_solution signal
submit_solution_lem eval sol s =
    elim (Bool-cases (ltb (eval sol.work.epoch sol.work.header sol.nonce) sol.work.boundary)) [
      | inl below ↦ rw below refl
      | inr above ↦ rw above refl
    ]

-- After a solution a connected client calls its handler for the verdict and then, in the next round,
-- that for new work, whose boundary is 2 ^ 256 divided by 2 ^ e, where the exponent e is at most one
-- away from the one before, if that was from 2 to 254; a round after it changes nothing.
pub simulate_round-solution :
    (eval : ℤ → ℕ → ℕ → ℕ) (sol : Solution) (now header later other : ℕ) (s : Simulate)
    → s.connected ≡ true
    → 1 < s.difficulty
    → s.difficulty < 255
    → (t : Simulate) × (simulate_round now header (submit_solution eval sol s) ≡ t)
      × (t.signals ≡ (s.signals ++ (verdict eval sol ∷ [])) ++ (handler_work t.current ∷ []))
      × (t.current.boundary * 2 ^ t.difficulty ≡ 2 ^ 256)
      × (t.difficulty ≤ s.difficulty + 1)
      × (s.difficulty ≤ t.difficulty + 1)
      × (simulate_round later other t ≡ t)
unfolding simulate_round signal seconds
simulate_round-solution eval sol now header later other s c l h =
    rw (submit_solution_lem eval sol s, c) (_, refl, refl, fits, near.0, near.1, refl)
  where
    near :
        (adjusted (seconds now s) s.difficulty ≤ s.difficulty + 1)
        × (s.difficulty ≤ adjusted (seconds now s) s.difficulty + 1)
    near = adjusted-near (seconds now s) s.difficulty l h

    fits :
        boundary (shifted (adjusted (seconds now s) s.difficulty))
          * 2 ^ adjusted (seconds now s) s.difficulty
        ≡ 2 ^ 256
    fits =
        boundary-shifted (adjusted (seconds now s) s.difficulty) (omega (arith, near, l))
          (omega (arith, near, h))
