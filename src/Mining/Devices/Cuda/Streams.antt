-- ===== src/Mining/Devices/Cuda/Streams.antt =====
-- What the buffers of the streams hold during a search of libethash-cuda/CUDAMiner.cpp.
use prog_po_w_miner.Common.{
  ℕ, ◌+◌, ◌-◌, ◌*◌, ◌%◌, ◌^◌, ◌<◌, ◌≤◌, ◌≡◌, ◌≢◌, ◌⊎◌, inl, inr, refl, sym, ap, ◌∙◌, List, [], ◌++◌,
  Bool, take, leb, ◌==◌, ==_iff, if◌then◌else◌, Bool-cases, arith,
}
use prog_po_w_miner.Common.Integers.{ℤ}
use prog_po_w_miner.Mining.Work.{WorkPackage}
use prog_po_w_miner.Mining.Devices.Cuda.{
  Hit, Search, search_results, max_nonce, next_nonce, put, report_hits, nonce_base, advance,
}
use prog_po_w_miner.Mining.Devices.Cuda.Ranges.{InRange, next_nonce-InRange, next_nonce-follows}

mod_apart : (S a b : ℕ) → a < b → b < a + S → a % S ≢ b % S
mod_apart S a b l h e = absurd (grind arith)

mod_again : (S k n : ℕ) → k + S ≡ n → (n + 1) % S ≡ (k + 1) % S
mod_again S k n e = grind (arith, e)

put_self : (i k : ℕ) (hits : List Hit) (buf : ℕ → List Hit) → i ≡ k → put k hits buf i ≡ hits
put_self i k hits buf e = ground (arith, e)

put_ne : (i k : ℕ) (hits : List Hit) (buf : ℕ → List Hit) → i ≢ k → put k hits buf i ≡ buf i
put_ne i k hits buf e = ground (arith, e)

room_left :
    (first n p b : ℕ)
    → n + b ≡ first + p
    → b ≤ p
    → first % 2 ^ 36 + p ≤ max_nonce
    → n % 2 ^ 36 + b ≤ max_nonce
room_left first n p b e l h = omega (arith, e, l, h)

base_left :
    (n first kb sb : ℕ)
    → n ≡ first + kb + sb
    → n < 2 ^ 64
    → sb < 2 ^ 32
    → (n + (2 ^ 64 - sb % 2 ^ 32)) % 2 ^ 64 ≡ first + kb
base_left n first kb sb e l h = omega (arith, e, l, h)

module _ (run : (header target start : ℕ) → List Hit) (eval : ℤ → ℕ → ℕ → ℕ × ℕ) (noeval : Bool)
    (device_num batch_size num_streams : ℕ) where
  abbrev S : ℕ
  S = num_streams

  abbrev B : ℕ
  B = batch_size

  -- What was searched and what the buffers hold after some kernels of a search: the kernel of number k
  -- started `k` batches behind the first one, and its buffer stands until the stream is used again.
  pub record Recent (first : ℕ) (s : Search) : Type 0 where
    pub some_kernel : 0 < s.current_index
    pub nonce : s.current_nonce + B ≡ first + s.current_index * B
    pub range : InRange device_num s.current_nonce
    pub kernel :
        (k : ℕ)
        → k < s.current_index
        → s.current_index ≤ k + S
        → s.search_buf ((k + 1) % S) ≡ run s.current_header s.current_target (first + k * B)
    pub unused : (k : ℕ) → s.current_index ≤ k → k < S → s.search_buf ((k + 1) % S) ≡ []

  -- A search that has begun anew, or has gone on from there.
  abbrev pub Tidy : ℕ → Search → Type 0
  Tidy first s =
      ((s.current_index ≡ 0)
        × (next_nonce device_num B s.current_nonce ≡ first)
        × ((k : ℕ) → s.search_buf k ≡ []))
      ⊎ Recent first s

  abbrev pub next_index : Search → ℕ
  next_index s = (s.current_index + 1) % 2 ^ 64

  abbrev pub started : Search → ℕ
  started s = next_nonce device_num B s.current_nonce

  -- The buffer of the kernel of a round, before and after it.
  abbrev pub filled : Search → List Hit
  filled s =
      let hits = run s.current_header s.current_target (started s) in
      if leb S (next_index s) then hits else s.search_buf (next_index s % S) ++ hits

  unfoldable pub advanced : (w : WorkPackage) (s : Search) → Search
  advanced w s = record s {
    current_index = next_index s;
    current_nonce = started s;
    search_buf = put (next_index s % S) (filled s) s.search_buf;
    reports =
        if leb S (next_index s)
        then s.reports
          ++ report_hits run eval noeval device_num batch_size num_streams w s.new_work
              (nonce_base run eval noeval device_num batch_size num_streams (started s))
              (take search_results (s.search_buf (next_index s % S)))
        else s.reports;
    hash_count = if leb S (next_index s) then (s.hash_count + B) % 2 ^ 64 else s.hash_count;
  }

  pub advance_lem :
      (w : WorkPackage) (s : Search)
      → advance run eval noeval device_num batch_size num_streams w s ≡ advanced w s
  unfolding advance advanced
  advance_lem w s = elim (Bool-cases (leb S (next_index s))) [
    | inl used ↦ rw used refl
    | inr unused ↦ rw unused refl
  ]

  -- The limits within which a search is looked at.
  pub record Room (first : ℕ) (s : Search) : Type 0 where
    pub streams : 0 < S
    pub index : s.current_index + 1 < 2 ^ 64
    pub nonces : first % 2 ^ 36 + s.current_index * B ≤ max_nonce

  started_lem :
      (first : ℕ) (s : Search)
      → Tidy first s
      → Room first s
      → started s ≡ first + s.current_index * B
  started_lem first s (inl (zeroth, begins, empty)) room = rw zeroth (omega (arith, begins))
  started_lem first s (inr t) room =
      next_nonce-follows device_num B s.current_nonce t.range (
        room_left first s.current_nonce (s.current_index * B) B t.nonce
          (grind (arith, t.some_kernel)) room.nonces)
      ∙ t.nonce

  next_index_lem : (first : ℕ) (s : Search) → Room first s → next_index s ≡ s.current_index + 1
  next_index_lem first s room = omega (arith, room.index)

  kernel_of :
      (first : ℕ) (s : Search)
      → Tidy first s
      → (k : ℕ) → k < s.current_index
      → s.current_index ≤ k + S
      → s.search_buf ((k + 1) % S) ≡ run s.current_header s.current_target (first + k * B)
  kernel_of first s (inl (zeroth, begins, empty)) k l h = absurd (omega (arith, l, zeroth))
  kernel_of first s (inr t) k l h = t.kernel k l h

  unused_of :
      (first : ℕ) (s : Search)
      → Tidy first s
      → (k : ℕ) → s.current_index ≤ k
      → k < S
      → s.search_buf ((k + 1) % S) ≡ []
  unused_of first s (inl (zeroth, begins, empty)) k l h = empty _
  unused_of first s (inr t) k l h = t.unused k l h

  module _ (first : ℕ) (s : Search) (t : Tidy first s) (room : Room first s) where
    stream_lem : next_index s % S ≡ (s.current_index + 1) % S
    stream_lem = ap (λ (n : ℕ). n % S) (next_index_lem first s room)

    -- The buffer that a round reads holds the hits of the kernel of `S` rounds ago, if there was one.
    pub read_lem :
        S ≤ s.current_index + 1
        → (s.search_buf (next_index s % S) ≡ [])
          ⊎ ((k : ℕ) × (k + S ≡ s.current_index)
              × (s.search_buf (next_index s % S)
                  ≡ run s.current_header s.current_target (first + k * B)))
    read_lem l = elim (Bool-cases (leb S s.current_index)) [
      | inl again ↦
          let k : ℕ = s.current_index - S in
          let sum : k + S ≡ s.current_index = ground (arith, again) in
          inr (
            k,
            sum,
            ap s.search_buf (stream_lem ∙ mod_again S k s.current_index sum)
                ∙ kernel_of first s t k (omega (arith, sum, room.streams)) (omega (arith, sum)),
          )
      | inr first_time ↦ inl (
          ap s.search_buf stream_lem
          ∙ unused_of first s t s.current_index (omega arith) (ground (arith, first_time)))
    ]

    filled_lem : filled s ≡ run s.current_header s.current_target (first + s.current_index * B)
    filled_lem = elim (Bool-cases (leb S (next_index s))) [
      | inl used ↦ rw used (ap (run s.current_header s.current_target) (started_lem first s t room))
      | inr unused ↦
          let nothing : s.search_buf (next_index s % S) ≡ [] =
            ap s.search_buf stream_lem
            ∙ unused_of first s t s.current_index (omega arith)
                (ground (arith, unused, room.index)) in
          rw (unused, nothing)
            (ap (run s.current_header s.current_target) (started_lem first s t room))
    ]

    kernel_next :
        (k : ℕ)
        → k < next_index s
        → next_index s ≤ k + S
        → put (next_index s % S) (filled s) s.search_buf ((k + 1) % S)
          ≡ run s.current_header s.current_target (first + k * B)
    kernel_next k l h = elim (Bool-cases (k == s.current_index)) [
      | inl last ↦
          let same : k ≡ s.current_index = (==_iff k s.current_index).0 last in
          put_self _ _ _ s.search_buf (ap (λ (n : ℕ). (n + 1) % S) same ∙ sym stream_lem)
          ∙ filled_lem
          ∙ ap (λ (n : ℕ). run s.current_header s.current_target (first + n * B)) (sym same)
      | inr before ↦
          let less : k < s.current_index = ground (arith, before, l, room.index) in
          let reach : s.current_index + 1 ≤ k + S = omega (arith, h, room.index) in
          put_ne _ _ _ s.search_buf (λ e.
            mod_apart S (k + 1) (s.current_index + 1) (omega arith) (omega arith) (e ∙ stream_lem))
          ∙ kernel_of first s t k less (omega arith)
    ]

    unused_next :
        (k : ℕ)
        → next_index s ≤ k
        → k < S
        → put (next_index s % S) (filled s) s.search_buf ((k + 1) % S) ≡ []
    unused_next k l h =
        let more : s.current_index + 1 ≤ k = omega (arith, l, room.index) in
        put_ne _ _ _ s.search_buf (λ e.
          mod_apart S (s.current_index + 1) (k + 1) (omega arith) (omega arith)
            (sym (e ∙ stream_lem)))
        ∙ unused_of first s t k (omega arith) h

    next_base : first + s.current_index * B + B ≡ first + next_index s * B
    next_base = rw (next_index_lem first s room) (grind arith)

    pub Recent-advanced : (w : WorkPackage) → Recent first (advanced w s)
    unfolding advanced
    Recent-advanced w = record {
      some_kernel = omega (arith, room.index);
      nonce = ap (λ (n : ℕ). n + B) (started_lem first s t room) ∙ next_base;
      range = next_nonce-InRange device_num B s.current_nonce;
      kernel = kernel_next;
      unused = unused_next;
    }

    -- The nonce that a round counts from is that of the kernel whose hits it reads.
    pub nonce_base_lem :
        (k : ℕ)
        → k + S ≡ s.current_index
        → S * B < 2 ^ 32
        → nonce_base run eval noeval device_num batch_size num_streams (started s) ≡ first + k * B
    unfolding nonce_base
    nonce_base_lem k e small =
        base_left (started s) first (k * B) (S * B)
          (started_lem first s t room ∙ ap (λ (n : ℕ). first + n * B) (sym e) ∙ grind arith)
          (next_nonce-InRange device_num B s.current_nonce).word small
