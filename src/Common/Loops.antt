-- ===== src/Common/Loops.antt =====
-- Counted loops: `rounds body n k s` runs `body` on the counter values k, k + 1, …, k + n - 1.
use Prim.Native.Nat.{ℕ, zero, suc, ◌+◌, ◌≤◌, ◌<◌}
use mathlib.Core.Path.{◌≡◌}
use native.Mathlib.Omega.{arith}

module _ {ℓ} {S : Type ℓ} (body : ℕ → S → S) where
  unfoldable pub rounds : (n k : ℕ) → S → S
  rounds zero k s = s
  rounds (suc n) k s = rounds n (k + 1) (body k s)

  -- What each round carries from its counter value to the next holds at the end.
  pub rounds_keep {κ} :
      (Good : ℕ → S → Type κ) (n k last : ℕ) (s : S)
      → k + n ≡ last
      → Good k s
      → ((c : ℕ) (t : S) → k ≤ c → c < last → Good c t → Good (c + 1) (body c t))
      → Good last (rounds n k s)
  unfolding rounds
  rounds_keep Good zero k last s end start step = let e : last ≡ k = omega arith in rw e start
  rounds_keep Good (suc n) k last s end start step =
      rounds_keep Good n (k + 1) last (body k s) (omega arith)
        (step k s (omega arith) (omega arith) start)
        (λ c t low high good. step c t (omega arith) high good)
