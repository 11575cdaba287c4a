-- ===== src/Rlp/Lists/Access.antt =====
-- `RLP` of libdevcore/RLP.{h,cpp} on the encoding of a list: the number of its items and each of them.
use prog_po_w_miner.Common.{
  ℕ, zero, suc, ◌+◌, ◌-◌, ◌^◌, ◌≤◌, ◌<◌, ◌≡◌, ◌⊎◌, refl, ap, ◌∙◌, List, [], ◌∷◌, ◌++◌, Bool, true,
  false, length, length-append, drop, ltb, leb, ◌==◌, Bool-cases, ==_iff, inl, inr, arith, some,
}
use prog_po_w_miner.Common.Result.{ok}
use prog_po_w_miner.Rlp.Format.{
  Item, Items, bytes, list, nil, cons, encode, encode_items, count, encode_bytes, header,
}
use prog_po_w_miner.Rlp.Reader.{
  cropped, cropped_from, is_list, payload, size_as_encoded, make, Strictness, fail, check_too_big,
  check_too_small, actual_size, is_null,
}
use prog_po_w_miner.Rlp.Reader.Headers.{max_size}
use prog_po_w_miner.Rlp.Reader.Elements.{
  cropped_middle, payload-encode_list, size_as_encoded-encode, make-encode,
}
use prog_po_w_miner.Rlp.Lists.{
  items_loop, items, Cache, new_cache, restart, advance, advance_loop, at,
}
use mathlib.Core.List.{append_assoc, append-nil}

cropped_from-append : (a b : List ℕ) → cropped_from (a ++ b) (length a) ≡ b
unfolding cropped_from
cropped_from-append a b = rw (inside) (skip a)
  where
    inside : leb (length a) (length (a ++ b)) ≡ true
    inside = ground (arith, length-append a b)

    skip : (xs : List ℕ) → drop (length xs) (xs ++ b) ≡ b
    skip [] = refl
    skip (x ∷ xs) = skip xs

header_nonempty : (start base n : ℕ) → 0 < length (header start base n)
unfolding header
header_nonempty start base n = ground arith

encode_nonempty : (x : Item) → 0 < length (encode x)
unfolding encode encode_bytes
encode_nonempty (bytes []) = omega arith
encode_nonempty (bytes (b ∷ [])) = ground arith
encode_nonempty (bytes (b ∷ c ∷ bs)) = omega (
  arith,
  length-append (header 0x80 0xb7 (length (b ∷ c ∷ bs))) (b ∷ c ∷ bs),
  header_nonempty 0x80 0xb7 (length (b ∷ c ∷ bs)),
)
encode_nonempty (list xs) = omega (
  arith,
  length-append (header 0xc0 0xf7 (length (encode_items xs))) (encode_items xs),
  header_nonempty 0xc0 0xf7 (length (encode_items xs)),
)

items_loop_lem :
    (xs : Items) (fuel i : ℕ)
    → length (encode_items xs) ≤ fuel
    → length (encode_items xs) < max_size
    → items_loop fuel (encode_items xs) i ≡ some (ok (i + count xs))
unfolding items_loop encode count
items_loop_lem nil zero i h k = ap (λ n. some (ok n)) (omega arith)
items_loop_lem nil (suc fuel) i h k = ap (λ n. some (ok n)) (omega arith)
items_loop_lem (cons x xs) zero i h k =
    absurd (omega (arith, length-append (encode x) (encode_items xs), encode_nonempty x))
items_loop_lem (cons x xs) (suc fuel) i h k =
    let size = length-append (encode x) (encode_items xs) in
    let some_bytes : (length (encode x ++ encode_items xs) == 0) ≡ false =
      ground (arith, size, encode_nonempty x) in
    rw
      (
        some_bytes,
        size_as_encoded-encode x (encode_items xs) (omega (arith, size)),
        cropped_from-append (encode x) (encode_items xs),
        items_loop_lem xs fuel (i + 1) (omega (arith, size, encode_nonempty x))
            (omega (arith, size)),
      )
      (ap (λ n. some (ok n)) (omega arith))

pub length-encode_items :
    (xs : Items) → length (encode (list xs)) < max_size → length (encode_items xs) < max_size
unfolding encode
length-encode_items xs h =
    omega (arith, length-append (header 0xc0 0xf7 (length (encode_items xs))) (encode_items xs))

list_view :
    (xs : Items)
    → length (encode (list xs)) < max_size
    → (is_list (encode (list xs)) ≡ true) × (payload (encode (list xs)) ≡ ok (encode_items xs))
list_view xs h = rw append-nil at (payload-encode_list xs [] h)

-- The encoding of a list is counted as its items are.
items-encode :
    (xs : Items)
    → length (encode (list xs)) < max_size
    → items (encode (list xs)) ≡ some (ok (count xs))
unfolding items
items-encode xs h =
    let (kind, inner) = list_view xs h in
    rw (kind, inner)
      (items_loop_lem xs (length (encode_items xs)) 0 (omega arith) (length-encode_items xs h)
        ∙ ap (λ n. some (ok n)) (omega arith))

-- The items from the given index on.
unfoldable pub items_from : ℕ → Items → Items
items_from zero xs = xs
items_from (suc n) nil = nil
items_from (suc n) (cons x xs) = items_from n xs

-- The encoding of the first item; no bytes if there is none.
unfoldable pub head_bytes : Items → List ℕ
head_bytes nil = []
head_bytes (cons x xs) = encode x

-- What the cache of a list holds: the item at the last index and where the next one starts.
pub record Cached (xs : Items) (c : Cache) : Type 0 where
  known : c.last_item ≡ head_bytes (items_from c.last_index xs)
  before : List ℕ
  split : encode_items xs ≡ before ++ encode_items (items_from (suc c.last_index) xs)
  here : c.last_end ≡ length before

head_read :
    (ys : Items)
    → length (encode_items ys) < max_size
    → (size_as_encoded (encode_items ys) ≡ ok (length (head_bytes ys)))
      × (cropped (encode_items ys) 0 (length (head_bytes ys)) ≡ head_bytes ys)
unfolding encode head_bytes size_as_encoded make check_too_big check_too_small actual_size is_null
    cropped
head_read nil h = (refl, refl)
head_read (cons x ys) h = (
  size_as_encoded-encode x (encode_items ys)
      (omega (arith, length-append (encode x) (encode_items ys))),
  cropped_middle [] (encode x) (encode_items ys),
)

head_split : (ys : Items) → encode_items ys ≡ head_bytes ys ++ encode_items (items_from 1 ys)
unfolding encode head_bytes items_from
head_split nil = refl
head_split (cons x ys) = refl

items_from-suc : (n : ℕ) (xs : Items) → items_from (suc n) xs ≡ items_from 1 (items_from n xs)
unfolding items_from
items_from-suc zero xs = refl
items_from-suc (suc n) nil = refl
items_from-suc (suc n) (cons x xs) = items_from-suc n xs

advance_lem :
    (xs : Items) (c : Cache)
    → length (encode (list xs)) < max_size
    → Cached xs c
    → (c' : Cache) × (advance (encode (list xs)) c ≡ ok c')
      × Cached xs c'
      × (c'.last_index ≡ suc c.last_index)
unfolding advance
advance_lem xs c h k =
    let ys = items_from (suc c.last_index) xs in
    let (kind, inner) = list_view xs h in
    let size : length (encode_items xs) ≡ length k.before + length (encode_items ys) =
      ap length k.split ∙ length-append k.before (encode_items ys) in
    let (read, item) = head_read ys (omega (arith, length-encode_items xs h)) in
    let rest : cropped_from (encode_items xs) c.last_end ≡ encode_items ys =
      rw (k.split, k.here) (cropped_from-append k.before (encode_items ys)) in
    (
      record {
        last_index = c.last_index + 1;
        last_end = c.last_end + length (head_bytes ys);
        last_item = head_bytes ys;
      },
      rw (inner, rest, read, item) refl,
      record {
        known = rw (next) refl;
        before = k.before ++ head_bytes ys;
        split =
            rw
              (
                next,
                append_assoc k.before (head_bytes ys) _,
                items_from-suc (suc c.last_index) xs,
                ← head_split ys,
              )
              k.split;
        here = omega (arith, k.here, length-append k.before (head_bytes ys));
      },
      next,
    )
  where
    next : c.last_index + 1 ≡ suc c.last_index
    next = omega arith

restart_lem :
    (xs : Items)
    → length (encode (list xs)) < max_size
    → (c' : Cache) × (restart (encode (list xs)) ≡ ok c') × Cached xs c' × (c'.last_index ≡ 0)
unfolding restart items_from
restart_lem xs h =
    let (kind, inner) = list_view xs h in
    let (read, item) = head_read xs (length-encode_items xs h) in
    (
      record { last_index = 0; last_end = length (head_bytes xs); last_item = head_bytes xs },
      rw (inner, read, item) refl,
      record { known = refl; before = head_bytes xs; split = head_split xs; here = refl },
      refl,
    )

items_from_nil : (n : ℕ) → items_from n nil ≡ nil
unfolding items_from
items_from_nil zero = refl
items_from_nil (suc n) = refl

items_from_add : (i n : ℕ) (xs : Items) → items_from (i + n) xs ≡ items_from n (items_from i xs)
unfolding items_from
items_from_add zero n xs = let e : 0 + n ≡ n = omega arith in rw e refl
items_from_add (suc i) n nil =
    let e : suc i + n ≡ suc (i + n) = omega arith in rw (e, items_from_nil n) refl
items_from_add (suc i) n (cons x xs) =
    let e : suc i + n ≡ suc (i + n) = omega arith in rw e (items_from_add i n xs)

past_the_end :
    (ys : Items)
    → length (head_bytes ys) ≡ 0
    → (n : ℕ) → head_bytes ys ≡ head_bytes (items_from n ys)
unfolding head_bytes
past_the_end nil e n = rw (items_from_nil n) refl
past_the_end (cons x ys) e n = absurd (omega (arith, encode_nonempty x))

loop_lem :
    (xs : Items) (n i : ℕ) (c : Cache)
    → length (encode (list xs)) < max_size
    → c.last_index + n ≡ i
    → Cached xs c
    → (c' : Cache) × (advance_loop n (encode (list xs)) c ≡ ok c')
      × Cached xs c'
      × (c'.last_item ≡ head_bytes (items_from i xs))
unfolding advance_loop
loop_lem xs zero i c h e k = (c, refl, k, rw (nothing) k.known)
  where
    nothing : i ≡ c.last_index
    nothing = omega (arith, e)
loop_lem xs (suc n) i c h e k = elim (Bool-cases (length c.last_item == 0)) [
  | inl over ↦
      let none_left : length (head_bytes (items_from c.last_index xs)) ≡ 0 =
        omega (arith, ap length k.known, (==_iff _ _).0 over) in
      (
        c,
        rw over refl,
        k,
        k.known
            ∙ rw (← e, items_from_add c.last_index (suc n) xs) (past_the_end _ none_left (suc n)),
      )
  | inr more ↦
      let (c', step, k', at_next) = advance_lem xs c h k in
      let (c'', rest, k'', found) = loop_lem xs n i c' h (omega (arith, at_next)) k' in
      (c'', rw (more, step) rest, k'', found)
]

make-empty :
    (a b c : Bool)
    → make (record { throw_on_fail = a; fail_if_too_big = b; fail_if_too_small = c }) [] ≡ ok []
unfolding make check_too_big check_too_small actual_size is_null fail
make-empty a true true = refl
make-empty a true false = refl
make-empty a false true = refl
make-empty a false false = refl

pub length-items_from :
    (i : ℕ) (xs : Items) → length (encode_items (items_from i xs)) ≤ length (encode_items xs)
unfolding items_from encode
length-items_from zero xs = omega arith
length-items_from (suc i) nil = omega arith
length-items_from (suc i) (cons x xs) =
    omega (arith, length-items_from i xs, length-append (encode x) (encode_items xs))

make-head_bytes :
    (s : Strictness) (ys : Items)
    → length (encode_items ys) < max_size
    → make s (head_bytes ys) ≡ ok (head_bytes ys)
unfolding head_bytes encode
make-head_bytes s nil h = make-empty s.throw_on_fail s.fail_if_too_big s.fail_if_too_small
make-head_bytes s (cons x ys) h =
    make-encode s x (omega (arith, length-append (encode x) (encode_items ys)))

-- Reading the item at an index, from a new object or after any earlier reads: the bytes of that item
-- (none if the list is shorter), and a cache from which later reads are right again.
pub at-encode :
    (xs : Items) (i : ℕ) (c : Cache)
    → length (encode (list xs)) < max_size
    → i < 2 ^ 64 - 1
    → (c ≡ new_cache) ⊎ Cached xs c
    → (c' : Cache) × (at (encode (list xs)) i c ≡ ok (head_bytes (items_from i xs), c'))
      × Cached xs c'
unfolding at
at-encode xs i c h small k = elim (Bool-cases (ltb i c.last_index)) [
  | inl back ↦
      let (c0, restarted, k0, first) = restart_lem xs h in
      let (c', looped, k', found) =
        loop_lem xs (i - c0.last_index) i c0 h (omega (arith, first)) k0 in
      (c', rw (back, restarted, looped, found) (rw (good) refl), k')
  | inr ahead ↦
      let (c', looped, k', found) =
        loop_lem xs (i - c.last_index) i c h (ground arith) (used ahead k) in
      (c', rw (ahead, looped, found) (rw (good) refl), k')
]
  where
    good :
        make
          (record { throw_on_fail = true; fail_if_too_big = false; fail_if_too_small = true })
          (head_bytes (items_from i xs))
        ≡ ok (head_bytes (items_from i xs))
    good =
        make-head_bytes _ (items_from i xs)
          (omega (arith, length-items_from i xs, length-encode_items xs h))

    used : ltb i c.last_index ≡ false → (c ≡ new_cache) ⊎ Cached xs c → Cached xs c
    used ahead (inl new) =
        let last : c.last_index ≡ 2 ^ 64 - 1 = ap (λ (c : Cache). c.last_index) new in
        absurd (ground (arith, last, ahead))
    used ahead (inr k) = k
