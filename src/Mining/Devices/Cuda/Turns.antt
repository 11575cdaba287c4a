-- ===== src/Mining/Devices/Cuda/Turns.antt =====
-- How a round of the loop of libethash-cuda/CUDAMiner.cpp comes to its search.
use prog_po_w_miner.Common.{
  ℕ, ◌≡◌, refl, inl, inr, [], Bool, true, false, Option, none, some, ◌==◌, Bool-cases, if_elim,
  arith,
}
use prog_po_w_miner.Common.Integers.{ℤ, pos, negsuc}
use prog_po_w_miner.Mining.Work.{WorkPackage}
use prog_po_w_miner.Mining.Devices.{period_seed, upper_64, extranonce_start}
use prog_po_w_miner.Mining.Devices.Cuda.{
  Search, takes_over, initialize, enter, Loop, init_failed, undefined_shift, searches, is_new,
  set_up, compile, begin_search, turn,
}

-- The members of a search are those for a header and a target, and a search that is new to the device
-- begins with its counters reset.
pub record Entered (header target : ℕ) (before after : Search) : Type 0 where
  pub header_set : after.current_header ≡ header
  pub target_set : after.current_target ≡ target
  pub reset :
      takes_over header target before ≡ true
      → (after.current_index ≡ 0) × ((k : ℕ) → after.search_buf k ≡ [])

enter-Entered :
    (header target own : ℕ) (start : Option ℕ) (s : Search)
    → Entered header target s (enter header target own start s)
unfolding enter initialize
enter-Entered header target own (some start) s = elim (Bool-cases (takes_over header target s)) [
  | inl new ↦ rw new (
      if_elim (Entered header target s) _
        (record { header_set = refl; target_set = refl; reset = λ _. (refl, λ k. refl) })
        (record { header_set = refl; target_set = refl; reset = λ _. (refl, λ k. refl) }))
  | inr old ↦ rw old (
      if_elim (Entered header target s) _
        (record {
          header_set = refl;
          target_set = refl;
          reset = λ e. absurd (ground (arith, e, old));
        })
        (record {
          header_set = refl;
          target_set = refl;
          reset = λ e. absurd (ground (arith, e, old));
        }))
]
enter-Entered header target own none s = elim (Bool-cases (takes_over header target s)) [
  | inl new ↦
      rw new (record { header_set = refl; target_set = refl; reset = λ _. (refl, λ k. refl) })
  | inr old ↦ rw old (record {
    header_set = refl;
    target_set = refl;
    reset = λ e. absurd (ground (arith, e, old));
  })
]

begin_search-Entered :
    (index own : ℕ) (l m : Loop)
    → begin_search index own l ≡ searches m
    → (m.current ≡ l.current)
      × Entered l.current.header (upper_64 l.current.boundary) l.search m.search
unfolding begin_search
begin_search-Entered index own l m e = by_protocol l.current.ex_size_bits e
  where
    placed : Option ℕ → Loop
    placed start = record l {
      search = enter l.current.header (upper_64 l.current.boundary) own start l.search;
    }

    done :
        (start : Option ℕ)
        → searches (placed start) ≡ searches m
        → (m.current ≡ l.current)
          × Entered l.current.header (upper_64 l.current.boundary) l.search m.search
    done start q =
        let same : m ≡ placed start = (cc) in
        rw same
          (refl, enter-Entered l.current.header (upper_64 l.current.boundary) own start l.search)

    by_start :
        (start : Option ℕ)
        → elim start [ some n ↦ searches (placed (some n)) | none ↦ undefined_shift ] ≡ searches m
        → (m.current ≡ l.current)
          × Entered l.current.header (upper_64 l.current.boundary) l.search m.search
    by_start (some n) q = done (some n) q
    by_start none q = absurd (cc)

    by_protocol :
        (bits : ℤ)
        → elim bits [
          | pos b ↦ elim (extranonce_start index l.current.start_nonce b) [
            | some n ↦ searches (placed (some n))
            | none ↦ undefined_shift
          ]
          | negsuc n ↦ searches (placed none)
        ]
          ≡ searches m
        → (m.current ≡ l.current)
          × Entered l.current.header (upper_64 l.current.boundary) l.search m.search
    by_protocol (pos b) q = by_start (extranonce_start index l.current.start_nonce b) q
    by_protocol (negsuc n) q = done none q

old-header : (w : WorkPackage) (l : Loop) → is_new w l ≡ false → l.current.header ≡ w.header
unfolding is_new
old-header w l h = ground arith

-- A search runs for the header of the work that came in and for the target of the current work, and if
-- one of them is new to the device, it begins with its counters and buffers reset.
turn-Entered :
    (outcome : Option Bool) (index own : ℕ) (w : WorkPackage) (l m : Loop)
    → turn outcome index own w l ≡ searches m
    → (before : Search) × Entered w.header (upper_64 m.current.boundary) before m.search
unfolding turn
turn-Entered outcome index own w l m e = elim (Bool-cases (is_new w l)) [
  | inr old ↦
      let (same, entered) = begin_search-Entered index own l m (ground (arith, e, old)) in
      (l.search, rw (same, ← old-header w l old) entered)
  | inl new ↦ elim (Bool-cases (w.header == 0)) [
    | inl nothing ↦ absurd (ground (arith, e, new, nothing))
    | inr work ↦ given (set_up outcome w l) (ground (arith, e, new, work))
  ]
]
  where
    given :
        (ready : Option Loop)
        → elim ready [
          | none ↦ init_failed
          | some l ↦
              begin_search index own
                (record (compile w l) { old_period_seed = period_seed w.height; current = w })
        ]
          ≡ searches m
        → (before : Search) × Entered w.header (upper_64 m.current.boundary) before m.search
    given (some l') q =
        let placed = record (compile w l') {
          old_period_seed = period_seed w.height;
          current = w;
        } in
        let (same, entered) = begin_search-Entered index own placed m q in
        (placed.search, rw same entered)
    given none q = absurd (cc)
