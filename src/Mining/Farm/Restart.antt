-- ===== src/Mining/Farm/Restart.antt =====
-- Starting, stopping and giving work in libethcore/Farm.h.
use prog_po_w_miner.Common.{
  ℕ, zero, suc, ◌+◌, ◌≡◌, ◌≢◌, ◌⊎◌, refl, sym, ap, ◌∙◌, List, [], ◌∷◌, ◌++◌, map, length, All, Bool,
  true, false, ◌&&◌, ◌==◌, some, if◌then◌else◌, inl, inr, arith,
}
use prog_po_w_miner.Common.Result.{ok}
use prog_po_w_miner.Mining.Work.{
  WorkPackage, no_work, Miner, Sealer, new_miner, start_working, set_miner_work, reset_hash_count,
}
use prog_po_w_miner.Mining.Farm.{
  Farm, ServiceThread, absent, running, returned, create_miners, start, start_with, start_service,
  stop, set_work, collect_hash_rate,
}
use prog_po_w_miner.Mining.Farm.Steps.{Resting, IsValid}

true_is_false : ¬ (true ≡ false)
true_is_false e = cc

All-map {ℓ κ μ} :
    {A : Type ℓ} {B : Type κ} (P : A → Type μ) (Q : B → Type μ) (g : A → B)
    → ((a : A) → P a → Q (g a))
    → (xs : List A) → All P xs
    → All Q (map g xs)
All-map P Q g h [] v = tt
All-map P Q g h (x ∷ xs) (p, v) = (h x p, All-map P Q g h xs v)

All-any : (xs : List Miner) → All (λ (m : Miner). Unit {0}) xs
All-any [] = tt
All-any (x ∷ xs) = (tt, All-any xs)

-- Work with another header or another start nonce than the farm's reaches every miner, whose hashes
-- are counted from 0 again.
set_work-reaches_miners :
    (now : ℕ) (wp : WorkPackage) (f : Farm)
    → (wp.header ≢ f.work.header) ⊎ (wp.start_nonce ≢ f.work.start_nonce)
    → All (λ (m : Miner). (m.work ≡ wp) × (m.hash_count ≡ 0)) ((set_work now wp f).miners)
unfolding set_work collect_hash_rate set_miner_work reset_hash_count
set_work-reaches_miners now wp f new = rw (other new) (
    All-map (λ (m : Miner). m.hash_count ≡ 0) _ (set_miner_work now wp) (λ m e. (refl, e)) _
      (All-map (λ (m : Miner). Unit {0}) _ reset_hash_count (λ m u. refl) f.miners
        (All-any f.miners)))
  where
    other :
        (wp.header ≢ f.work.header) ⊎ (wp.start_nonce ≢ f.work.start_nonce)
        → (wp.header == f.work.header && wp.start_nonce == f.work.start_nonce) ≡ false
    other (inl ne) = ground arith
    other (inr ne) = ground arith

serving : (f : Farm) → IsValid f → f.is_mining ≡ true → f.service ≡ running
serving f v mining = go f.service refl v.resting
  where
    go : (t : ServiceThread) → f.service ≡ t → Resting t f → f.service ≡ running
    go running e r = e
    go returned e (idle, m, p) = absurd (true_is_false (sym mining ∙ idle))
    go absent e (idle, m, p, u) = absurd (true_is_false (sym mining ∙ idle))

-- The farm with its miners, before its timer is set.
manned : Sealer → Bool → ℕ → Farm → Farm
manned s mixed n f =
    let kept = if mixed then f.miners else [] in
    record f {
      miners = kept ++ create_miners s n (length kept);
      is_mining = true;
      last_sealer = some s;
      last_mixed = mixed;
    }

-- What a service that does not run leaves to the next start.
served : Farm → ServiceThread → Farm
served f t = record f {
  timer_armed = true;
  service = elim t [
    | absent ↦ (if f.service_stopped then returned else running)
    | running ↦ running
    | returned ↦ running
  ];
  service_stopped = elim t [
    | absent ↦ f.service_stopped
    | running ↦ f.service_stopped
    | returned ↦ false
  ];
}

start_with-served :
    (s : Sealer) (mixed : Bool) (n : ℕ) (f : Farm) (t : ServiceThread)
    → f.service ≡ t
    → t ≢ running
    → start_with s mixed n f ≡ ok (true, served (manned s mixed n f) t)
unfolding start_with start_service served manned
start_with-served s mixed n f running e ne = absurd (ne refl)
start_with-served s mixed n f returned e ne = rw e refl
start_with-served s mixed n f absent e ne = rw e refl

length-create_miners : (s : Sealer) (n k : ℕ) → length (create_miners s n k) ≡ n
unfolding create_miners
length-create_miners s zero k = refl
length-create_miners s (suc n) k = ap suc (length-create_miners s n (k + 1))

created-idle :
    (s : Sealer) (n k : ℕ)
    → All (λ (m : Miner). m.work ≡ no_work) (map reset_hash_count (create_miners s n k))
unfolding create_miners new_miner start_working reset_hash_count
created-idle s zero k = tt
created-idle s (suc n) k = (refl, created-idle s n (k + 1))

-- Work that the farm has only makes it collect the counts.
same_work : (now : ℕ) (f : Farm) → set_work now f.work f ≡ collect_hash_rate now f
unfolding set_work collect_hash_rate
same_work now f = rw (itself f.work.header, itself f.work.start_nonce) refl
  where
    itself : (k : ℕ) → (k == k) ≡ true
    itself k = ground arith

-- After miners were stopped and started again, the work that the farm had before does not reach the
-- new miners, which keep the empty package.
pub restart-same_work :
    (s : Sealer) (n now : ℕ) (f : Farm)
    → IsValid f
    → f.is_mining ≡ true
    → f.sealers s ≡ some n
    → (g : Farm) × (start s false (stop f) ≡ ok (true, g))
      × (length g.miners ≡ n)
      × All (λ (m : Miner). m.work ≡ no_work) ((set_work now f.work g).miners)
unfolding start stop manned served collect_hash_rate
restart-same_work s n now f v mining set_up =
    let m = manned s false n (stop f) in
    let rests : (stop f).service ≡ returned = rw (serving f v mining) refl in
    let g = served m returned in
    (
      g,
      rw (set_up, start_with-served s false n (stop f) returned rests (λ q. cc)) refl,
      length-create_miners s n 0,
      rw (same_work now g) (created-idle s n 0),
    )
