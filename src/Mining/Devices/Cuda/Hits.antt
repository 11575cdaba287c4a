-- ===== src/Mining/Devices/Cuda/Hits.antt =====
-- What the search of libethash-cuda/CUDAMiner.cpp hands in.
use prog_po_w_miner.Common.{
  ℕ, zero, suc, ◌+◌, ◌*◌, ◌%◌, ◌^◌, ◌<◌, ◌≤◌, ◌≡◌, inl, inr, refl, sym, ap, ◌∙◌, List, [], ◌∷◌,
  ◌++◌, Bool, true, false, ◌||◌, ◌&&◌, some, take, get_elem?, leb, if◌then◌else◌, Bool-cases, All,
  All-append, arith,
}
use mathlib.Core.List.{append-nil, append_assoc}
use prog_po_w_miner.Common.Integers.{ℤ}
use prog_po_w_miner.Mining.Work.{WorkPackage}
use prog_po_w_miner.Mining.Devices.Cuda.{
  Hit, Report, Search, search_results, max_nonce, next_nonce, report_hit, report_hits, nonce_base,
  search_round, kick_miner,
}
use prog_po_w_miner.Mining.Devices.Cuda.Streams.{
  Tidy, next_index, started, advanced, advance_lem, Room, read_lem, Recent-advanced, nonce_base_lem,
}

get_elem?-take :
    (n : ℕ) (xs : List Hit) (i : ℕ) (x : Hit)
    → get_elem? (take n xs) i ≡ some x
    → get_elem? xs i ≡ some x
get_elem?-take zero xs i x e = absurd (cc)
get_elem?-take (suc n) [] i x e = e
get_elem?-take (suc n) (y ∷ xs) zero x e = e
get_elem?-take (suc n) (y ∷ xs) (suc i) x e = get_elem?-take n xs i x e

fewer : (a n b : ℕ) → a + suc n * b ≤ max_nonce → a + n * b ≤ max_nonce
fewer a n b h = grind (arith, h)

module _ (run : (header target start : ℕ) → List Hit) (eval : ℤ → ℕ → ℕ → ℕ × ℕ) (noeval : Bool)
    (device_num batch_size num_streams : ℕ) where
  abbrev S : ℕ
  S = num_streams

  abbrev B : ℕ
  B = batch_size

  -- A report tells of a hit of a kernel for the header of the work and the target, at the nonce that was
  -- tried.
  pub record IsHit (header target : ℕ) (r : Report) : Type 0 where
    pub work : WorkPackage
    pub same : work.header ≡ header
    pub stale : Bool
    pub start : ℕ
    pub place : ℕ
    pub hit : Hit
    pub found : get_elem? (run header target start) place ≡ some hit
    pub told : r ≡ report_hit run eval noeval device_num batch_size num_streams work stale start hit

  report_hits-IsHit :
      (w : WorkPackage) (stale : Bool) (target start : ℕ) (hits : List Hit)
      → ((i : ℕ) (h : Hit)
          → get_elem? hits i ≡ some h
          → (place : ℕ) × (get_elem? (run w.header target start) place ≡ some h))
      → All (IsHit w.header target) (report_hits run eval noeval device_num B S w stale start hits)
  unfolding report_hits
  report_hits-IsHit w stale target start [] all = tt
  report_hits-IsHit w stale target start (hit ∷ hits) all =
      let (place, found) = all 0 hit refl in
      (
        record {
          work = w;
          same = refl;
          stale = stale;
          start = start;
          place = place;
          hit = hit;
          found = found;
          told = refl;
        },
        report_hits-IsHit w stale target start hits (λ i h. all (suc i) h),
      )

  -- A number of rounds for works with the header of the search, and kicks, from its beginning.
  pub data Rounds (begun : Search) : ℕ → Search → Type 0 where
    entered : Rounds begun 0 begun
    kicked : {n : ℕ} {s : Search} → Rounds begun n s → Rounds begun n (kick_miner s)
    round :
        (should_stop : Bool) (w : WorkPackage) {n : ℕ} {s : Search}
        → Rounds begun n s
        → w.header ≡ s.current_header
        → Rounds begun (suc n) (search_round run eval noeval device_num B S should_stop w s).0

  record Kept (begun : Search) (n : ℕ) (s : Search) : Type 0 where
    tidy :
        Tidy run eval noeval device_num batch_size num_streams
          (started run eval noeval device_num batch_size num_streams begun)
          s
    counted : s.current_index ≡ n
    same_header : s.current_header ≡ begun.current_header
    same_target : s.current_target ≡ begun.current_target
    told : List Report
    reports : s.reports ≡ begun.reports ++ told
    hits : All (IsHit begun.current_header begun.current_target) told

  -- What a round keeps says nothing of the flag for new work.
  flag-Kept :
      (begun : Search) (n : ℕ) (s : Search) (b : Bool)
      → Kept begun n s
      → Kept begun n (record s { new_work = b })
  flag-Kept begun n s b k = record {
    tidy = elim (k.tidy) [
      | inl zeroth ↦ inl zeroth
      | inr t ↦ inr (record {
        some_kernel = t.some_kernel;
        nonce = t.nonce;
        range = t.range;
        kernel = t.kernel;
        unused = t.unused;
      })
    ];
    counted = k.counted;
    same_header = k.same_header;
    same_target = k.same_target;
    told = k.told;
    reports = k.reports;
    hits = k.hits;
  }

  none_told :
      (w : WorkPackage) (stale : Bool) (header target base : ℕ)
      → All (IsHit header target) (report_hits run eval noeval device_num B S w stale base [])
  unfolding report_hits
  none_told w stale header target base = tt

  -- The reports of a round.
  told_now : WorkPackage → Search → List Report
  told_now w s =
      if leb S (next_index run eval noeval device_num batch_size num_streams s)
      then report_hits run eval noeval device_num B S w s.new_work
          (nonce_base run eval noeval device_num B S
            (started run eval noeval device_num batch_size num_streams s))
          (take search_results
            (s.search_buf (next_index run eval noeval device_num batch_size num_streams s % S)))
      else []

  advanced-reports :
      (w : WorkPackage) (s : Search)
      → (advanced run eval noeval device_num batch_size num_streams w s).reports
        ≡ s.reports ++ told_now w s
  unfolding advanced told_now
  advanced-reports w s =
      elim (Bool-cases (leb S (next_index run eval noeval device_num batch_size num_streams s))) [
        | inl used ↦ rw used refl
        | inr unused ↦ rw unused (sym (append-nil s.reports))
      ]

  told_now-IsHit :
      (first : ℕ) (w : WorkPackage) (s : Search)
      → Tidy run eval noeval device_num batch_size num_streams first s
      → Room run eval noeval device_num batch_size num_streams first s
      → S * B < 2 ^ 32
      → w.header ≡ s.current_header
      → All (IsHit s.current_header s.current_target) (told_now w s)
  unfolding told_now
  told_now-IsHit first w s t room small same =
      elim (Bool-cases (leb S (next_index run eval noeval device_num batch_size num_streams s))) [
        | inr unused ↦ rw unused tt
        | inl used ↦
            rw (used, ← same)
              (elim (read_lem run eval noeval device_num batch_size num_streams first s t room
                (ground (arith, used, room.index))) [
                  | inl nothing ↦ rw nothing (none_told w s.new_work _ _ _)
                  | inr (k, sum, hits) ↦
                      rw
                        (nonce_base_lem run eval noeval device_num batch_size num_streams first s t
                          room k sum small)
                        (report_hits-IsHit w s.new_work s.current_target (first + k * B)
                          (take search_results (
                            s.search_buf
                              (next_index run eval noeval device_num batch_size num_streams s % S)))
                          (λ i h e. (
                            i,
                            ap (λ (c : ℕ). get_elem? (run c s.current_target (first + k * B)) i)
                                  same
                                ∙ ap (λ (hs : List Hit). get_elem? hs i) (sym hits)
                                ∙ get_elem?-take search_results _ i h e,
                          )))
                ])
      ]

  counted_next :
      (w : WorkPackage) (s : Search)
      → s.current_index + 1 < 2 ^ 64
      → (advanced run eval noeval device_num batch_size num_streams w s).current_index
        ≡ suc s.current_index
  unfolding advanced
  counted_next w s l = omega (arith, l)

  header_next :
      (w : WorkPackage) (s : Search)
      → (advanced run eval noeval device_num batch_size num_streams w s).current_header
        ≡ s.current_header
  unfolding advanced
  header_next w s = refl

  target_next :
      (w : WorkPackage) (s : Search)
      → (advanced run eval noeval device_num batch_size num_streams w s).current_target
        ≡ s.current_target
  unfolding advanced
  target_next w s = refl

  advance-Kept :
      (begun : Search) (n : ℕ) (s : Search) (w : WorkPackage)
      → 0 < S
      → S * B < 2 ^ 32
      → suc n < 2 ^ 64
      → started run eval noeval device_num batch_size num_streams begun % 2 ^ 36 + n * B ≤ max_nonce
      → w.header ≡ s.current_header
      → Kept begun n s
      → Kept begun (suc n) (advanced run eval noeval device_num batch_size num_streams w s)
  advance-Kept begun n s w streams small index limit same k =
      let room : Room run eval noeval device_num batch_size num_streams
          (started run eval noeval device_num batch_size num_streams begun) s =
        record {
          streams = streams;
          index = omega (arith, k.counted, index);
          nonces = rw (k.counted) limit;
        } in
      let now : All (IsHit begun.current_header begun.current_target) (told_now w s) =
        rw (← k.same_header, ← k.same_target)
          (told_now-IsHit (started run eval noeval device_num batch_size num_streams begun) w s
            k.tidy room small same) in
      record {
        tidy = inr (
            Recent-advanced run eval noeval device_num batch_size num_streams
              (started run eval noeval device_num batch_size num_streams begun) s k.tidy room w);
        counted = counted_next w s (omega (arith, k.counted, index)) ∙ ap suc k.counted;
        same_header = header_next w s ∙ k.same_header;
        same_target = target_next w s ∙ k.same_target;
        told = k.told ++ told_now w s;
        reports =
            advanced-reports w s
            ∙ ap (λ (rs : List Report). rs ++ told_now w s) k.reports
            ∙ append_assoc begun.reports k.told (told_now w s);
        hits = All-append _ k.told _ k.hits now;
      }

  kick-Kept : (begun : Search) (n : ℕ) (s : Search) → Kept begun n s → Kept begun n (kick_miner s)
  unfolding kick_miner
  kick-Kept begun n s k = flag-Kept begun n s true k

  search_round-Kept :
      (begun : Search) (n : ℕ) (s : Search) (w : WorkPackage) (should_stop : Bool)
      → Kept begun n (advanced run eval noeval device_num batch_size num_streams w s)
      → Kept begun n (search_round run eval noeval device_num B S should_stop w s).0
  unfolding search_round
  search_round-Kept begun n s w should_stop k =
      rw (advance_lem run eval noeval device_num batch_size num_streams w s)
        (elim (Bool-cases (
          leb S (advanced run eval noeval device_num batch_size num_streams w s).current_index
          && ((advanced run eval noeval device_num batch_size num_streams w s).new_work
              || should_stop))) [
                | inl ends ↦ rw ends (
                    flag-Kept begun n
                      (advanced run eval noeval device_num batch_size num_streams w s) false k)
                | inr on ↦ rw on k
              ])

  Rounds-Kept :
      (begun : Search) {n : ℕ} {s : Search}
      → 0 < S
      → S * B < 2 ^ 32
      → n < 2 ^ 64
      → started run eval noeval device_num batch_size num_streams begun % 2 ^ 36 + n * B ≤ max_nonce
      → begun.current_index ≡ 0
      → ((k : ℕ) → begun.search_buf k ≡ [])
      → Rounds begun n s
      → Kept begun n s
  Rounds-Kept begun streams small index limit zeroth empty entered = record {
    tidy = inl (zeroth, refl, empty);
    counted = zeroth;
    same_header = refl;
    same_target = refl;
    told = [];
    reports = sym (append-nil begun.reports);
    hits = tt;
  }
  Rounds-Kept begun streams small index limit zeroth empty (kicked {n} {s} r) =
      kick-Kept begun n s (Rounds-Kept begun streams small index limit zeroth empty r)
  Rounds-Kept begun streams small index limit zeroth empty (round should_stop w {n} {s} r same) =
      search_round-Kept begun (suc n) s w should_stop (
        advance-Kept begun n s w streams small index
          (fewer (started run eval noeval device_num batch_size num_streams begun % 2 ^ 36) n B
            limit)
          same
          (Rounds-Kept begun streams small (omega (arith, index))
            (fewer (started run eval noeval device_num batch_size num_streams begun % 2 ^ 36) n B
              limit)
            zeroth empty r))

  -- A search that begins with its counters reset hands in only what its kernels found: each report tells of
  -- a hit of a kernel for the header of its work and the target of the search, at the nonce that was
  -- tried, as long as the range of the device is not passed (`n` batches fit) and fewer than 2 ^ 64
  -- kernels ran.
  pub Rounds-IsHit :
      (begun s : Search) (n : ℕ)
      → Rounds begun n s
      → begun.current_index ≡ 0
      → ((k : ℕ) → begun.search_buf k ≡ [])
      → 0 < S
      → S * B < 2 ^ 32
      → n < 2 ^ 64
      → next_nonce device_num B begun.current_nonce % 2 ^ 36 + n * B ≤ max_nonce
      → (told : List Report) × (s.reports ≡ begun.reports ++ told)
        × All (IsHit begun.current_header begun.current_target) told
  Rounds-IsHit begun s n r zeroth empty streams small index limit =
      let k = Rounds-Kept begun streams small index limit zeroth empty r in
      (k.told, k.reports, k.hits)
