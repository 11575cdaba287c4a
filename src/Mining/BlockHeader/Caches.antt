-- ===== src/Mining/BlockHeader/Caches.antt =====
-- What a header of libethcore/BlockHeader.cpp keeps of its hash and its boundary.
use prog_po_w_miner.Common.{
  ℕ, ◌/◌, ◌%◌, ◌^◌, ◌≡◌, ◌⊎◌, inl, inr, refl, ◌∙◌, List, false, not, ◌&&◌, ◌==◌, if◌then◌else◌,
  Bool-cases, arith,
}
use prog_po_w_miner.Common.Result.{Result, ok, err, ◌>>=◌}
use prog_po_w_miner.Rlp.Format.{RlpError}
use prog_po_w_miner.Mining.BlockHeader.{
  Header, note_dirty, set_number, set_difficulty, boundary, stream_rlp_fields, written,
  hash_without,
}

-- The boundary of a difficulty; there is none for a difficulty of 0.
abbrev pub right_boundary : ℕ → ℕ
right_boundary d = if d == 0 then 0 else 2 ^ 256 / d % 2 ^ 256

module _ (sha3 : List ℕ → ℕ) where
  -- What can be asked of a header and set in it.
  pub data Use : Header → Header → Type 0 where
    numbered : (v : ℕ) {h : Header} → Use h (set_number v h)
    made_difficult : (v : ℕ) {h : Header} → Use h (set_difficulty v h)
    bounded : {h : Header} → Use h (boundary h).1
    hashed : {h g : Header} (n : ℕ) → hash_without sha3 h ≡ ok (n, g) → Use h g

  pub data Uses (h : Header) : Header → Type 0 where
    unused : Uses h h
    used : {f g : Header} → Uses h f → Use f g → Uses h g

  -- What is kept is up to date, or nothing is kept.
  pub record IsCoherent (h : Header) : Type 0 where
    pub bound : (h.kept_boundary ≡ 0) ⊎ (h.kept_boundary ≡ right_boundary h.difficulty)
    pub hash :
        (h.kept_hash ≡ 0) ⊎ ((out : List ℕ) × (written h ≡ ok out) × (h.kept_hash ≡ sha3 out))

  bounded-IsCoherent : (h : Header) → IsCoherent h → IsCoherent (boundary h).1
  unfolding boundary written stream_rlp_fields
  bounded-IsCoherent h k = elim (Bool-cases (h.kept_boundary == 0 && not (h.difficulty == 0))) [
    | inl new ↦
        let some : (h.difficulty == 0) ≡ false = ground (arith, new) in
        rw new (record { bound = inr (rw some refl); hash = k.hash })
    | inr old ↦ rw old k
  ]

  bound_lem : (h : Header) → IsCoherent h → (boundary h).0 ≡ right_boundary h.difficulty
  unfolding boundary
  bound_lem h k = elim (k.bound) [
    | inl none ↦ ground (arith, none)
    | inr kept ↦ ground (arith, kept)
  ]

  hashed_new :
      (h g : Header) (n : ℕ) (r : Result RlpError (List ℕ))
      → written h ≡ r
      → ◌>>=◌ {B = ℕ × Header} r (λ out. ok (sha3 out, record h { kept_hash = sha3 out }))
        ≡ ok (n, g)
      → IsCoherent h
      → IsCoherent g × ((out : List ℕ) × (written h ≡ ok out) × (n ≡ sha3 out))
  unfolding written stream_rlp_fields
  hashed_new h g n (ok out) w e k =
      let same : g ≡ record h { kept_hash = sha3 out } = (cc) in
      let value : n ≡ sha3 out = (cc) in
      (rw same (record { bound = k.bound; hash = inr (out, w, refl) }), (out, w, value))
  hashed_new h g n (err x) w e k = absurd (cc)

  hashed_lem :
      (h g : Header) (n : ℕ)
      → hash_without sha3 h ≡ ok (n, g)
      → IsCoherent h
      → IsCoherent g × ((out : List ℕ) × (written h ≡ ok out) × (n ≡ sha3 out))
  unfolding hash_without
  hashed_lem h g n e k = elim (Bool-cases (h.kept_hash == 0)) [
    | inl new ↦ hashed_new h g n (written h) refl (ground (arith, e, new)) k
    | inr old ↦
        let same : g ≡ h = ground (arith, e, old) in
        let value : n ≡ h.kept_hash = ground (arith, e, old) in (rw same k, kept value old)
  ]
    where
      kept :
          n ≡ h.kept_hash
          → (h.kept_hash == 0) ≡ false
          → (out : List ℕ) × (written h ≡ ok out) × (n ≡ sha3 out)
      kept value old = elim (k.hash) [
        | inl none ↦ absurd (ground (arith, none, old))
        | inr (out, w, q) ↦ (out, w, value ∙ q)
      ]

  Use-IsCoherent : {g h : Header} → Use g h → IsCoherent g → IsCoherent h
  unfolding set_number set_difficulty note_dirty
  Use-IsCoherent (numbered v {h}) k = record { bound = inl refl; hash = inl refl }
  Use-IsCoherent (made_difficult v {h}) k = record { bound = inl refl; hash = inl refl }
  Use-IsCoherent (bounded {h}) k = bounded-IsCoherent h k
  Use-IsCoherent (hashed {h} {g} n e) k = (hashed_lem h g n e k).0

  Uses-IsCoherent : {g h : Header} → Uses g h → IsCoherent g → IsCoherent h
  Uses-IsCoherent unused k = k
  Uses-IsCoherent (used r u) k = Use-IsCoherent u (Uses-IsCoherent r k)

  -- However a header that kept nothing was used, its boundary is that of its present difficulty, and its
  -- hash is that of its present fields.
  pub Uses-up_to_date :
      (g h f : Header) (n : ℕ)
      → g.kept_boundary ≡ 0
      → g.kept_hash ≡ 0
      → Uses g h
      → hash_without sha3 h ≡ ok (n, f)
      → ((boundary h).0 ≡ right_boundary h.difficulty)
        × ((out : List ℕ) × (written h ≡ ok out) × (n ≡ sha3 out))
  Uses-up_to_date g h f n b z r e =
      let k : IsCoherent h = Uses-IsCoherent r (record { bound = inl b; hash = inl z }) in
      (bound_lem h k, (hashed_lem h f n e k).1)
