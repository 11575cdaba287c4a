-- ===== src/Mining/Devices/Opencl/Nonces.antt =====
-- What the loop of libethash-cl/CLMiner.cpp hands in, and which nonces it searches.
use prog_po_w_miner.Common.{
  ℕ, ◌+◌, ◌-◌, ◌%◌, ◌^◌, ◌<◌, ◌≡◌, ◌≢◌, ◌⊎◌, inl, inr, refl, sym, ap, ◌∙◌, List, [], ◌∷◌, ◌++◌,
  false, not, ◌||◌, some, get_elem?, ltb, ◌==◌, if◌then◌else◌, if_elim, Bool-cases, All, All-append,
  arith,
}
use prog_po_w_miner.Common.Integers.{ℤ}
use prog_po_w_miner.Common.Result.{Result, ok, err, ◌>>=◌}
use prog_po_w_miner.Mining.Work.{WorkPackage, Solution}
use prog_po_w_miner.Mining.Devices.{period_seed, same_epoch, upper_64}
use prog_po_w_miner.Mining.Devices.Opencl.{
  Action, pause, init, submit_proof, Loop, LoopError, new_loop, act, is_new, prepare, first_nonce,
  receive, found_nonce, launch, report, step_on, mine, work_loop_round,
}

old-header : (w : WorkPackage) (l : Loop) → is_new w l ≡ false → l.current.header ≡ w.header
unfolding is_new
old-header w l h = ground arith

old-seed :
    (w : WorkPackage) (l : Loop) → is_new w l ≡ false → l.old_period_seed ≡ period_seed w.height
unfolding is_new
old-seed w l h = ground arith

period_seed-lt : (height : ℕ) → period_seed height < 2 ^ 64 - 1
unfolding period_seed
period_seed-lt height = omega arith

module _ (run : (header target start : ℕ) → List ℕ) (mix : ℤ → ℕ → ℕ → ℕ)
    (global_work_size : ℕ) where
  -- Rounds with any works, from the beginning of the loop.
  pub data Rounds : Loop → Type 0 where
    begun : (memory : List ℕ) → Rounds (new_loop memory)
    round :
        (index own : ℕ) (w : WorkPackage) {l m : Loop}
        → Rounds l
        → work_loop_round run mix global_work_size index own w l ≡ ok m
        → Rounds m

  -- The kernel ran on the current work, and its hits are in the buffer.
  pub record Running (l : Loop) : Type 0 where
    pub hits : l.search_buffer ≡ run l.header_buffer l.target_arg l.start_arg
    pub header : l.header_buffer ≡ l.current.header
    pub from : l.current.start_nonce ≡ l.start_arg % 2 ^ 32
    pub further : l.start_nonce ≡ (l.start_arg + global_work_size) % 2 ^ 64

  -- The solution is the first hit of a kernel for the header of its work, with the lower half of the
  -- nonce that was tried, and it is not marked as stale.
  pub record IsHit (s : Solution) : Type 0 where
    pub target : ℕ
    pub start : ℕ
    pub gid : ℕ
    pub hit : get_elem? (run s.work.header target start) 0 ≡ some gid
    pub nonce : s.nonce ≡ (start + gid) % 2 ^ 32
    pub fresh : s.stale ≡ false

  abbrev pub Proven : Action → Type 0
  Proven (submit_proof s) = IsHit s
  Proven pause = Unit {0}
  Proven (init e b x y) = Unit {0}

  abbrev pub Ready : Loop → Type 0
  Ready l = (l.old_period_seed ≡ 2 ^ 64 - 1) ⊎ Running l

  -- The solution that a round may hand in.
  abbrev made : ℕ → WorkPackage → Loop → Solution
  made nonce w l = record {
    nonce = nonce;
    mix_hash = mix l.current.epoch l.current.header nonce;
    work = l.current;
    stale = not (l.current.header == w.header);
  }

  report_lem :
      (nonce : ℕ) (w : WorkPackage) (l : Loop)
      → report run mix global_work_size nonce w l ≡ record l {
        actions =
            if not (nonce == 0)
            then l.actions ++ (submit_proof (made nonce w l) ∷ [])
            else l.actions;
      }
  unfolding report act
  report_lem nonce w l = elim (Bool-cases (nonce == 0)) [
    | inl none_found ↦ rw none_found refl
    | inr found ↦ rw found refl
  ]

  mine-Running :
      (w : WorkPackage) (l : Loop)
      → l.header_buffer ≡ w.header
      → Running (mine run mix global_work_size w l)
  unfolding mine step_on launch
  mine-Running w l e =
      rw (report_lem (found_nonce l) w (launch run mix global_work_size l))
        (record { hits = refl; header = e; from = refl; further = refl })

  mine-Proven :
      (w : WorkPackage) (l : Loop)
      → All Proven l.actions
      → (found_nonce l ≢ 0 → IsHit (made (found_nonce l) w l))
      → All Proven (mine run mix global_work_size w l).actions
  unfolding mine step_on launch
  mine-Proven w l h k =
      rw (report_lem (found_nonce l) w (launch run mix global_work_size l))
        (elim (Bool-cases (found_nonce l == 0)) [
          | inl none_found ↦ rw none_found h
          | inr found ↦
              rw found
                (All-append Proven l.actions _ h (k (λ e. absurd (ground (arith, e, found))), tt))
        ])

  found-IsHit :
      (w : WorkPackage) (l : Loop)
      → Running l
      → l.current.header ≡ w.header
      → found_nonce l ≢ 0
      → IsHit (made (found_nonce l) w l)
  unfolding found_nonce
  found-IsHit w l r e = by_buffer l.search_buffer refl
    where
      by_buffer :
          (b : List ℕ)
          → b ≡ l.search_buffer
          → found_nonce (record l { search_buffer = b }) ≢ 0
          → IsHit (made (found_nonce (record l { search_buffer = b })) w l)
      by_buffer [] q ne = absurd (ne refl)
      by_buffer (gid ∷ rest) q ne = record {
        target = l.target_arg;
        start = l.start_arg;
        gid = gid;
        hit =
            ap (λ (h : ℕ). get_elem? (run h l.target_arg l.start_arg) 0) (sym r.header)
            ∙ ap (λ (b : List ℕ). get_elem? b 0) (sym r.hits ∙ sym q);
        nonce = omega (arith, r.from);
        fresh = ground (arith, e);
      }

  prepare-Proven :
      (w : WorkPackage) (l : Loop) → All Proven l.actions → All Proven (prepare w l).actions
  unfolding prepare act
  prepare-Proven w l h =
      if_elim (λ (m : Loop). All Proven m.actions)
        (not (same_epoch l.current.epoch w.epoch)
          || not (l.old_period_seed == period_seed w.height))
        (All-append Proven l.actions _ h (tt, tt)) h

  -- New work on the device, before the first kernel for it.
  record Received (w : WorkPackage) (m : Loop) : Type 0 where
    proven : All Proven m.actions
    header : m.header_buffer ≡ w.header
    emptied : m.search_buffer ≡ []

  receive-Received :
      (index own : ℕ) (w : WorkPackage) (l m : Loop)
      → All Proven l.actions
      → receive index own w l ≡ ok m
      → Received w m
  unfolding receive
  receive-Received index own w l m h e = elim (Bool-cases (ltb 0 (upper_64 w.boundary))) [
    | inl some_target ↦ given (first_nonce index own w) (sym e ∙ rw some_target refl)
    | inr no_target ↦ absurd (ground (arith, e, no_target))
  ]
    where
      placed : ℕ → Loop
      placed n = record (prepare w l) {
        header_buffer = w.header;
        search_buffer = [];
        target_arg = upper_64 w.boundary;
        start_nonce = n;
      }

      given : (n : Result LoopError ℕ) → ok m ≡ (n >>= λ n. ok (placed n)) → Received w m
      given (ok n) q =
          let same : m ≡ placed n = (cc) in
          rw same (record { proven = prepare-Proven w l h; header = refl; emptied = refl })
      given (err x) q = absurd (cc)

  -- What every round keeps.
  record Kept (l : Loop) : Type 0 where
    ready : Ready l
    proven : All Proven l.actions

  Received-found : (w : WorkPackage) (m : Loop) → Received w m → found_nonce m ≡ 0
  unfolding found_nonce
  Received-found w m r = ap (λ (b : List ℕ). found_nonce (record m { search_buffer = b })) r.emptied

  mine-Kept : (w : WorkPackage) (m : Loop) → Received w m → Kept (mine run mix global_work_size w m)
  mine-Kept w m r = record {
    ready = inr (mine-Running w m r.header);
    proven = mine-Proven w m r.proven (λ ne. absurd (ne (Received-found w m r)));
  }

  pause-Kept : (l : Loop) → Kept l → Kept (act pause l)
  unfolding act
  pause-Kept l k = record {
    ready = elim (k.ready) [
      | inl first ↦ inl first
      | inr r ↦
          inr (record { hits = r.hits; header = r.header; from = r.from; further = r.further })
    ];
    proven = All-append Proven l.actions _ k.proven (tt, tt);
  }

  continue-Kept :
      (w : WorkPackage) (l : Loop)
      → Kept l
      → is_new w l ≡ false
      → Kept (mine run mix global_work_size w l)
  continue-Kept w l k old = elim (k.ready) [
    | inl first ↦ absurd (omega (arith, first, old-seed w l old, period_seed-lt w.height))
    | inr r ↦ record {
      ready = inr (mine-Running w l (r.header ∙ same));
      proven = mine-Proven w l k.proven (found-IsHit w l r same);
    }
  ]
    where
      same : l.current.header ≡ w.header
      same = old-header w l old

  round-Kept :
      (index own : ℕ) (w : WorkPackage) (l m : Loop)
      → Kept l
      → work_loop_round run mix global_work_size index own w l ≡ ok m
      → Kept m
  unfolding work_loop_round
  round-Kept index own w l m k e = elim (Bool-cases (is_new w l)) [
    | inr old ↦
        let same : mine run mix global_work_size w l ≡ m = ground (arith, e, old) in
        rw (← same) (continue-Kept w l k old)
    | inl new ↦ elim (Bool-cases (w.header == 0)) [
      | inl nothing ↦
          let same : act pause l ≡ m = ground (arith, e, new, nothing) in
          rw (← same) (pause-Kept l k)
      | inr work ↦ given (receive index own w l) refl (ground (arith, e, new, work))
    ]
  ]
    where
      given :
          (r : Result LoopError Loop)
          → receive index own w l ≡ r
          → (r >>= λ l. ok (mine run mix global_work_size w l)) ≡ ok m
          → Kept m
      given (ok l') a q =
          let same : mine run mix global_work_size w l' ≡ m = (cc) in
          rw (← same) (mine-Kept w l' (receive-Received index own w l l' k.proven a))
      given (err x) a q = absurd (cc)

  Rounds-Kept : {l : Loop} → Rounds l → Kept l
  Rounds-Kept (begun memory) = record { ready = inl refl; proven = tt }
  Rounds-Kept (round index own w {l} {m} r e) = round-Kept index own w l m (Rounds-Kept r) e

  -- Whatever work comes in, every solution that the loop hands in is the first hit of a kernel that ran for
  -- the header of its work, its nonce is the lower half of the nonce that was tried, and it is not
  -- marked as stale.
  pub Rounds-Proven : (l : Loop) → Rounds l → All Proven l.actions
  Rounds-Proven l r = (Rounds-Kept r).proven

  -- While the work stays the same, a kernel starts where the range of the one before it ended, after any
  -- rounds.
  mine-start_arg :
      (l : Loop) (w : WorkPackage)
      → Rounds l
      → is_new w l ≡ false
      → (mine run mix global_work_size w l).start_arg ≡ (l.start_arg + global_work_size) % 2 ^ 64
  unfolding mine step_on launch
  mine-start_arg l w r old =
      rw (report_lem (found_nonce l) w (launch run mix global_work_size l))
        (elim ((Rounds-Kept r).ready) [
          | inl first ↦ absurd (omega (arith, first, old-seed w l old, period_seed-lt w.height))
          | inr running ↦ running.further
        ])
