-- ===== src/Rlp/Runs.antt =====
-- libdevcore/RLP.{h,cpp} at concrete inputs: a list of "dog", the empty list and the byte 0.
use prog_po_w_miner.Common.{ℕ, ◌≡◌, refl, List, [], ◌∷◌, some, inl, arith}
use prog_po_w_miner.Common.Result.{Result, ok, ◌>>=◌}
use prog_po_w_miner.Rlp.Format.{RlpError, Items, bytes, list, nil, cons, encode}
use prog_po_w_miner.Rlp.Stream.{empty, finish}
use prog_po_w_miner.Rlp.Stream.Refinement.{write_item, finish-write_item}
use prog_po_w_miner.Rlp.Lists.{Cache, new_cache, items, at}
use prog_po_w_miner.Rlp.Lists.Access.{at-encode, Cached, head_bytes, items_from}
use prog_po_w_miner.Rlp.Lists.Termination.{items-total}

abbrev dog : List ℕ
dog = 100 ∷ 111 ∷ 103 ∷ []

abbrev three : Items
three = cons (bytes dog) (cons (list nil) (cons (bytes (0 ∷ [])) nil))

encode-three : encode (list three) ≡ 0xc6 ∷ 0x83 ∷ 100 ∷ 111 ∷ 103 ∷ 0xc0 ∷ 0 ∷ []
unfolding encode
encode-three = refl

finish-write_item_example : (write_item (list three) empty >>= finish) ≡ ok (encode (list three))
finish-write_item_example = finish-write_item (list three) (rw encode-three (omega arith))

at-encode_example :
    (c : Cache) × (at (encode (list three)) 1 new_cache ≡ ok (head_bytes (items_from 1 three), c))
    × Cached three c
at-encode_example =
    at-encode three 1 new_cache (rw encode-three (omega arith)) (omega arith) (inl refl)

items-total_example : (r : Result RlpError ℕ) × (items (0xc2 ∷ 0x81 ∷ []) ≡ some r)
items-total_example = items-total (0xc2 ∷ 0x81 ∷ [])
