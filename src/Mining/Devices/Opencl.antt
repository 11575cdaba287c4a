-- ===== src/Mining/Devices/Opencl.antt =====
-- libethash-cl/CLMiner.cpp: the loop of an OpenCL miner. What a kernel finds is the parameter `run`, which
-- gives the places of its hits for a header, a target and the nonce that it starts from; `mix` is the
-- mix hash that `EthashAux::eval` computes. A call of OpenCL that throws ends the loop.
pub mod Nonces
mod Runs
use prog_po_w_miner.Common.{
  ℕ, ◌+◌, ◌-◌, ◌%◌, ◌^◌, List, [], ◌∷◌, ◌++◌, Bool, true, false, not, ◌&&◌, ◌||◌, Option, none,
  some, ltb, ◌==◌, if◌then◌else◌,
}
use prog_po_w_miner.Common.Integers.{ℤ, pos, negsuc}
use prog_po_w_miner.Common.Result.{Result, ok, err, ◌>>=◌}
use prog_po_w_miner.Mining.Work.{WorkPackage, no_work, Solution}
use prog_po_w_miner.Mining.Devices.{
  height_offset, period_seed, same_epoch, upper_64, extranonce_start,
}

-- What the miner does besides: it waits, prepares the device for an epoch or a period, and hands in proofs.
pub data Action : Type 0 where
  pause : Action
  init : ℤ → ℕ → Bool → Bool → Action
  submit_proof : Solution → Action

-- The locals of the loop, the buffers of the device and the arguments of the search kernel.
pub record Loop : Type 0 where
  pub start_nonce : ℕ
  pub current : WorkPackage
  pub old_period_seed : ℕ
  pub search_buffer : List ℕ
  pub header_buffer : ℕ
  pub target_arg : ℕ
  pub start_arg : ℕ
  pub hash_count : ℕ
  pub actions : List Action

-- A failed `assert`, or a shift that is not defined.
pub data LoopError : Type 0 where
  assertion_failed undefined_shift : LoopError

-- The loop begins; the buffer holds what its memory held.
abbrev pub new_loop : List ℕ → Loop
new_loop memory = record {
  start_nonce = 0;
  current = record no_work { header = 1 };
  old_period_seed = 2 ^ 64 - 1;
  search_buffer = memory;
  header_buffer = 0;
  target_arg = 0;
  start_arg = 0;
  hash_count = 0;
  actions = [];
}

unfoldable pub act : Action → Loop → Loop
act a l = record l { actions = l.actions ++ (a ∷ []) }

-- Whether the work is other work than the current one.
unfoldable pub is_new : WorkPackage → Loop → Bool
is_new w l =
    not (l.current.header == w.header)
    || not (same_epoch l.current.epoch w.epoch)
    || not (l.old_period_seed == period_seed w.height)

-- `init`, if the epoch or the period is another one
unfoldable pub prepare : WorkPackage → Loop → Loop
prepare w l =
    let new_epoch = not (same_epoch l.current.epoch w.epoch) in
    let new_period = not (l.old_period_seed == period_seed w.height) in
    if new_epoch || new_period
    then act (init w.epoch ((w.height + height_offset) % 2 ^ 64) new_epoch new_period) l
    else l

-- The first nonce for new work, in a range of its own or under the extranonce
unfoldable pub first_nonce : (index own : ℕ) → WorkPackage → Result LoopError ℕ
first_nonce index own w = elim (w.ex_size_bits) [
  | pos bits ↦ elim (extranonce_start index w.start_nonce bits) [
    | some n ↦ ok n
    | none ↦ err undefined_shift
  ]
  | negsuc n ↦ ok own
]

-- "New work received. Update GPU data."
unfoldable pub receive : (index own : ℕ) → WorkPackage → Loop → Result LoopError Loop
receive index own w l =
    let l = prepare w l in
    if not (ltb 0 (upper_64 w.boundary))
    then err assertion_failed
    else (first_nonce index own w >>= λ n. ok (record l {
      header_buffer = w.header;
      search_buffer = [];
      target_arg = upper_64 w.boundary;
      start_nonce = n;
    }))

-- The nonce of the first result, in the 32 bits of its operands, or 0
unfoldable pub found_nonce : Loop → ℕ
found_nonce l = elim (l.search_buffer) [ [] ↦ 0 | gid ∷ _ ↦ (l.current.start_nonce + gid) % 2 ^ 32 ]

module _ (run : (header target start : ℕ) → List ℕ) (mix : ℤ → ℕ → ℕ → ℕ)
    (global_work_size : ℕ) where
  -- The kernel adds its hits to the buffer, which was emptied if it held any.
  unfoldable pub launch : Loop → Loop
  launch l = record l {
    start_arg = l.start_nonce;
    search_buffer = run l.header_buffer l.target_arg l.start_nonce;
  }

  unfoldable pub report : ℕ → WorkPackage → Loop → Loop
  report nonce w l =
      if not (nonce == 0)
      then act
          (submit_proof (record {
            nonce = nonce;
            mix_hash = mix l.current.epoch l.current.header nonce;
            work = l.current;
            stale = not (l.current.header == w.header);
          }))
          l
      else l

  -- The work becomes the current one, with a start nonce of 32 bits.
  unfoldable pub step_on : WorkPackage → Loop → Loop
  step_on w l = record l {
    old_period_seed = period_seed w.height;
    current = record w { start_nonce = l.start_nonce % 2 ^ 32 };
    start_nonce = (l.start_nonce + global_work_size) % 2 ^ 64;
    hash_count = (l.hash_count + global_work_size) % 2 ^ 64;
  }

  unfoldable pub mine : WorkPackage → Loop → Loop
  mine w l = step_on w (report (found_nonce l) w (launch l))

  -- One round of `workLoop()` with the work and the start of the miner's own range
  unfoldable pub work_loop_round : (index own : ℕ) → WorkPackage → Loop → Result LoopError Loop
  work_loop_round index own w l =
      if is_new w l
      then (if w.header == 0
          then ok (act pause l)
          else (receive index own w l >>= λ l. ok (mine w l)))
      else ok (mine w l)
