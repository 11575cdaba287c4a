-- ===== src/Rlp/Lists.antt =====
-- libdevcore/RLP.{h,cpp}: how `RLP` counts and finds the items of a list.
pub mod Access
pub mod Termination
use prog_po_w_miner.Common.{
  ℕ, zero, suc, ◌+◌, ◌-◌, ◌^◌, List, [], Bool, true, false, length, ltb, ◌==◌, if◌then◌else◌,
  Option, none, some,
}
use prog_po_w_miner.Common.Result.{Result, ok, err, ◌>>=◌}
use prog_po_w_miner.Rlp.Format.{RlpError}
use prog_po_w_miner.Rlp.Reader.{
  cropped, cropped_from, is_list, payload, size_as_encoded, make, very_strict, Strictness,
}

-- The loop of `items()`, whose view `d` gets shorter in every round; `none` if `fuel` rounds are not enough.
unfoldable pub items_loop : ℕ → List ℕ → ℕ → Option (Result RlpError ℕ)
items_loop zero d i = if length d == 0 then some (ok i) else none
items_loop (suc fuel) d i = if length d == 0 then some (ok i) else elim (size_as_encoded d) [
  | ok n ↦ items_loop fuel (cropped_from d n) (i + 1)
  | err e ↦ some (err e)
]

-- `items()`
unfoldable pub items : List ℕ → Option (Result RlpError ℕ)
items d =
    if is_list d
    then (elim (payload d) [ ok p ↦ items_loop (length p) p 0 | err e ↦ some (err e) ])
    else some (ok 0)

-- `m_lastIndex`, `m_lastEnd` and `m_lastItem`, which `operator[]` changes.
pub record Cache : Type 0 where
  pub last_index : ℕ
  pub last_end : ℕ
  pub last_item : List ℕ

-- As a new object has them: `m_lastIndex` is (size_t)-1.
abbrev pub new_cache : Cache
new_cache = record { last_index = 2 ^ 64 - 1; last_end = 0; last_item = [] }

-- The first item becomes the last one that was read.
unfoldable pub restart : List ℕ → Result RlpError Cache
restart d = payload d >>= λ p. size_as_encoded p >>= λ n.
    ok (record { last_index = 0; last_end = n; last_item = cropped p 0 n })

-- One round: the item behind the last one.
unfoldable pub advance : List ℕ → Cache → Result RlpError Cache
advance d c = payload d >>= λ p.
    let item = cropped_from p c.last_end in
    size_as_encoded item >>= λ n. ok (record {
      last_index = c.last_index + 1;
      last_end = c.last_end + length (cropped item 0 n);
      last_item = cropped item 0 n;
    })

-- The loop, of at most as many rounds as `m_lastIndex` is below the index.
unfoldable pub advance_loop : ℕ → List ℕ → Cache → Result RlpError Cache
advance_loop zero d c = ok c
advance_loop (suc n) d c =
    if length c.last_item == 0 then ok c else (advance d c >>= advance_loop n d)

-- `operator[](_i)`: the data of the item and the cache after the call.
unfoldable pub at : List ℕ → ℕ → Cache → Result RlpError (List ℕ × Cache)
at d i c = (if ltb i c.last_index then restart d else ok c) >>= λ started.
    advance_loop (i - started.last_index) d started >>= λ found.
    make (record very_strict { fail_if_too_big = false }) found.last_item >>= λ item.
    ok (item, found)
