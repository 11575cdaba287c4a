-- ===== src/Mining/Devices/Cuda.antt =====
-- libethash-cuda/CUDAMiner.{h,cpp}: `search` and the loop of a CUDA miner. What a kernel finds is the
-- parameter `run`, which gives the places and mix hashes of its hits for a header, a target and the
-- nonce that it starts from; `eval` is that of `EthashAux`, a value and a mix hash. A call of CUDA
-- that throws ends the loop. A kick of the miner falls between two rounds of a search.
pub mod Ranges
pub mod Streams
pub mod Hits
pub mod Turns
mod Runs
use prog_po_w_miner.Common.{
  ℕ, ◌+◌, ◌-◌, ◌*◌, ◌/◌, ◌%◌, ◌^◌, List, [], ◌∷◌, ◌++◌, Bool, true, false, not, ◌&&◌, ◌||◌, Option,
  none, some, take, ltb, leb, ◌==◌, if◌then◌else◌,
}
use prog_po_w_miner.Common.Integers.{ℤ, pos, negsuc}
use prog_po_w_miner.Common.Result.{Result, ok, err, ◌>>=◌}
use prog_po_w_miner.Mining.Work.{WorkPackage, no_work, Solution}
use prog_po_w_miner.Mining.Devices.{
  height_offset, period_seed, same_epoch, upper_64, extranonce_start,
}

-- A result in a buffer
pub record Hit : Type 0 where
  pub gid : ℕ
  pub mix : ℕ

-- What the miner tells the farm.
pub data Report : Type 0 where
  submit_proof : Solution → Report
  failed_solution : Report

-- The results of the kernels of the streams, by the number of the stream, are those since a buffer was
-- emptied. `starting_nonce` is never set before it is read under another protocol than that of
-- EthereumStratum.
pub record Search : Type 0 where
  pub current_header : ℕ
  pub current_target : ℕ
  pub current_nonce : ℕ
  pub starting_nonce : ℕ
  pub current_index : ℕ
  pub search_buf : ℕ → List Hit
  pub new_work : Bool
  pub hash_count : ℕ
  pub reports : List Report

-- `SEARCH_RESULTS`
abbrev pub search_results : ℕ
search_results = 4

-- `max_nonce`: the literal 0xEFFFFFFFF in 32 bits
abbrev pub max_nonce : ℕ
max_nonce = 0xEFFFFFFFF % 2 ^ 32

-- The header and the target of a search; whether one of them is new.
unfoldable pub takes_over : (header target : ℕ) → Search → Bool
takes_over header target s = not (s.current_header == header) || not (s.current_target == target)

-- A new search begins with no kernel on the device and empty buffers.
unfoldable pub initialize : Search → Search
initialize s = record s { current_index = 0; search_buf = λ k. [] }

-- `search` up to its loop; `own` is `get_start_nonce()`, and a start nonce is that of EthereumStratum.
unfoldable pub enter : (header target own : ℕ) → Option ℕ → Search → Search
enter header target own eth_start s =
    let new = takes_over header target s in
    let s = record s { current_header = header; current_target = target } in
    elim eth_start [
      | some start ↦
          let s = if new then initialize (record s { starting_nonce = 0 }) else s in
          if not (s.starting_nonce == start)
          then record s { starting_nonce = start; current_nonce = start }
          else s
      | none ↦ if new then initialize (record s { current_nonce = own }) else s
    ]

-- The next nonce of a device: the lower 36 bits begin again past the limit, and bits 36 to 39 are the
-- number of the device.
unfoldable pub next_nonce : (device_num batch_size nonce : ℕ) → ℕ
next_nonce device_num batch_size nonce =
    let n = (nonce + batch_size) % 2 ^ 64 in
    let n = if ltb max_nonce (n % 2 ^ 36) then 0 else n in
    n / 2 ^ 40 * 2 ^ 40 + device_num % 16 * 2 ^ 36 + n % 2 ^ 36

abbrev pub put : ℕ → List Hit → (ℕ → List Hit) → ℕ → List Hit
put k hits buf i = if i == k then hits else buf i

module _ (run : (header target start : ℕ) → List Hit) (eval : ℤ → ℕ → ℕ → ℕ × ℕ) (noeval : Bool)
    (device_num batch_size num_streams : ℕ) where
  -- What is told of a hit, without or with a check on the host.
  unfoldable pub report_hit : WorkPackage → Bool → ℕ → Hit → Report
  report_hit w stale nonce_base hit =
      let nonce = (nonce_base + hit.gid) % 2 ^ 64 in
      if noeval
      then submit_proof (record { nonce = nonce; mix_hash = hit.mix; work = w; stale = stale })
      else let r = eval w.epoch w.header nonce in
        if ltb r.0 w.boundary
        then submit_proof (record { nonce = nonce; mix_hash = r.1; work = w; stale = stale })
        else failed_solution

  unfoldable pub report_hits : WorkPackage → Bool → ℕ → List Hit → List Report
  report_hits w stale nonce_base [] = []
  report_hits w stale nonce_base (hit ∷ hits) =
      report_hit w stale nonce_base hit ∷ report_hits w stale nonce_base hits

  -- The nonce from which the kernel started that ran on the same stream before, if no limit was passed
  unfoldable pub nonce_base : ℕ → ℕ
  nonce_base nonce = (nonce + (2 ^ 64 - num_streams * batch_size % 2 ^ 32)) % 2 ^ 64

  -- The kernel of this round adds to its buffer, which is read and emptied before if it was used.
  unfoldable pub advance : WorkPackage → Search → Search
  advance w s =
      let index = (s.current_index + 1) % 2 ^ 64 in
      let nonce = next_nonce device_num batch_size s.current_nonce in
      let stream = index % num_streams in
      let hits = run s.current_header s.current_target nonce in
      if leb num_streams index
      then record s {
        current_index = index;
        current_nonce = nonce;
        search_buf = put stream hits s.search_buf;
        reports =
            s.reports
            ++ report_hits w s.new_work (nonce_base nonce)
                (take search_results (s.search_buf stream));
        hash_count = (s.hash_count + batch_size) % 2 ^ 64;
      }
      else record s {
        current_index = index;
        current_nonce = nonce;
        search_buf = put stream (s.search_buf stream ++ hits) s.search_buf;
      }

  -- One round of the loop of `search`, and whether the search goes on
  unfoldable pub search_round : (should_stop : Bool) → WorkPackage → Search → Search × Bool
  search_round should_stop w s =
      let s = advance w s in
      if leb num_streams s.current_index && (s.new_work || should_stop)
      then (record s { new_work = false }, false)
      else (s, true)

-- `kick_miner()`
unfoldable pub kick_miner : Search → Search
kick_miner s = record s { new_work = true }

-- The device is set up anew: `cuda_init` with another size of the DAG
unfoldable pub forget : Search → Search
forget s = record s { current_header = 0; current_target = 0; current_nonce = 0; current_index = 0 }

-- The locals of `workLoop()`, the members of the search and the kernels that were compiled.
pub record Loop : Type 0 where
  pub current : WorkPackage
  pub old_period_seed : ℕ
  pub search : Search
  pub kernels : List ℕ

abbrev pub new_loop : Search → Loop
new_loop s = record {
  current = record no_work { header = 1 };
  old_period_seed = 2 ^ 64 - 1;
  search = s;
  kernels = [];
}

-- What a round comes to before its search: there is no work, the device cannot be set up, the shift for
-- an extranonce is not defined, or a search begins.
pub data Turn : Type 0 where
  no_work_yet : Turn
  init_failed : Turn
  undefined_shift : Turn
  searches : Loop → Turn

unfoldable pub is_new : WorkPackage → Loop → Bool
is_new w l =
    not (l.current.header == w.header)
    || not (same_epoch l.current.epoch w.epoch)
    || not (l.old_period_seed == period_seed w.height)

-- `init`, if the epoch is another one: it fails, or tells whether the DAG has another size.
unfoldable pub set_up : Option Bool → WorkPackage → Loop → Option Loop
set_up outcome w l = if same_epoch l.current.epoch w.epoch then some l else elim outcome [
  | none ↦ none
  | some other_size ↦ some (if other_size then record l { search = forget l.search } else l)
]

-- `compileKernel`, if the period is another one
unfoldable pub compile : WorkPackage → Loop → Loop
compile w l =
    if not (l.old_period_seed == period_seed w.height)
    then record l { kernels = l.kernels ++ (((w.height + height_offset) % 2 ^ 64) ∷ []) }
    else l

-- The search for the current work, with its start nonce under an extranonce
unfoldable pub begin_search : (index own : ℕ) → Loop → Turn
begin_search index own l =
    let target = upper_64 l.current.boundary in
    elim (l.current.ex_size_bits) [
      | pos bits ↦ elim (extranonce_start index l.current.start_nonce bits) [
        | some n ↦
            searches (record l { search = enter l.current.header target own (some n) l.search })
        | none ↦ undefined_shift
      ]
      | negsuc n ↦ searches (record l { search = enter l.current.header target own none l.search })
    ]

-- A round of `workLoop()` up to the loop of its search
unfoldable pub turn : Option Bool → (index own : ℕ) → WorkPackage → Loop → Turn
turn outcome index own w l =
    if is_new w l
    then (if w.header == 0 then no_work_yet else elim (set_up outcome w l) [
      | none ↦ init_failed
      | some l ↦
          begin_search index own
            (record (compile w l) { old_period_seed = period_seed w.height; current = w })
    ])
    else begin_search index own l
