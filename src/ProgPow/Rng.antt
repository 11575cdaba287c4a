-- ===== src/ProgPow/Rng.antt =====
-- libprogpow/ProgPow.cpp: FNV-1a and the KISS99 generator, over 32-bit words.
use prog_po_w_miner.Common.{ℕ, ◌+◌, ◌*◌, ◌/◌, ◌%◌, ◌^◌, ◌<◌, bit_xor, arith}
use prog_po_w_miner.Common.Bits.{bit_xor-lt}

abbrev pub IsU32 : ℕ → Type 0
IsU32 w = w < 2 ^ 32

abbrev pub u32 : ℕ → ℕ
u32 w = w % 2 ^ 32

pub record Kiss99 : Type 0 where
  pub z : ℕ
  pub w : ℕ
  pub jsr : ℕ
  pub jcong : ℕ

-- The new value of the hash, which is also the result.
unfoldable pub fnv1a : ℕ → ℕ → ℕ
fnv1a h d = u32 (bit_xor h d * 0x1000193)

-- One of the three xor-shifts of `jsr`; the shift to the left drops the bits above 32.
abbrev xorshift_left : ℕ → ℕ → ℕ
xorshift_left x k = bit_xor x (u32 (x * 2 ^ k))

abbrev xorshift_right : ℕ → ℕ → ℕ
xorshift_right x k = bit_xor x (x / 2 ^ k)

unfoldable pub kiss99 : Kiss99 → ℕ × Kiss99
kiss99 st =
    let z = u32 (36969 * (st.z % 2 ^ 16) + st.z / 2 ^ 16) in
    let w = u32 (18000 * (st.w % 2 ^ 16) + st.w / 2 ^ 16) in
    let mwc = u32 (u32 (z * 2 ^ 16) + w) in
    let jsr = xorshift_left (xorshift_right (xorshift_left st.jsr 17) 13) 5 in
    let jcong = u32 (69069 * st.jcong + 1234567) in
    (u32 (bit_xor mwc jcong + jsr), record { z = z; w = w; jsr = jsr; jcong = jcong })

-- The state that a program seed starts from; `fnv_hash` runs through the four calls.
unfoldable pub seed_rnd : ℕ → Kiss99
seed_rnd prog_seed =
    let seed0 = u32 prog_seed in
    let seed1 = u32 (prog_seed / 2 ^ 32) in
    let z = fnv1a 0x811c9dc5 seed0 in
    let w = fnv1a z seed1 in
    let jsr = fnv1a w seed0 in
    let jcong = fnv1a jsr seed1 in record { z = z; w = w; jsr = jsr; jcong = jcong }

pub record IsState (st : Kiss99) : Type 0 where
  pub z_fits : IsU32 st.z
  pub w_fits : IsU32 st.w
  pub jsr_fits : IsU32 st.jsr
  pub jcong_fits : IsU32 st.jcong

pub seed_rnd-IsState : (prog_seed : ℕ) → IsState (seed_rnd prog_seed)
unfolding seed_rnd fnv1a
seed_rnd-IsState prog_seed = record {
  z_fits = omega arith;
  w_fits = omega arith;
  jsr_fits = omega arith;
  jcong_fits = omega arith;
}

xorshift_left-lt : (x k : ℕ) → IsU32 x → IsU32 (xorshift_left x k)
xorshift_left-lt x k h = bit_xor-lt 32 x (u32 (x * 2 ^ k)) h (omega arith)

xorshift_right-lt : (x : ℕ) → IsU32 x → IsU32 (xorshift_right x 13)
xorshift_right-lt x h = bit_xor-lt 32 x (x / 2 ^ 13) h (omega arith)

-- A draw is a 32-bit word, and the generator's state stays within 32-bit words.
pub kiss99-IsState : (st : Kiss99) → IsState st → IsU32 (kiss99 st).0 × IsState (kiss99 st).1
unfolding kiss99
kiss99-IsState st h = (
  omega arith,
  record {
    z_fits = omega arith;
    w_fits = omega arith;
    jsr_fits = xorshift_left-lt _ 5 (xorshift_right-lt _ (xorshift_left-lt st.jsr 17 h.jsr_fits));
    jcong_fits = omega arith;
  },
)
