-- ===== src/Mining/Farm/Validity.antt =====
-- Every step of the farm of libethcore/Farm.h keeps it valid.
use prog_po_w_miner.Common.{
  ℕ, zero, suc, ◌+◌, ◌≤◌, ◌≡◌, refl, ap, ◌∙◌, List, [], ◌∷◌, ◌++◌, map, Bool, true, false, not,
  ◌&&◌, Option, none, some, length, set, drop, ◌==◌, get_elem?, All, All-append, length-map,
  length-set, if◌then◌else◌, if_elim, Option-cases, inl, inr, arith,
}
use prog_po_w_miner.Common.Result.{Result, ok, err}
use prog_po_w_miner.Mining.Work.{
  WorkPackage, WorkingProgress, Sealer, Miner, new_miner, start_working, add_hash_count,
  set_miner_work, reset_hash_count,
}
use prog_po_w_miner.Mining.Farm.{
  Farm, ServiceThread, absent, running, returned, sum_64, collected, smoothed, collect_hash_rate,
  set_work, start, stop, process_hash_rate, mining_progress, failed_solution, accepted_solution,
  rejected_solution, set_pool_addresses, create_miners, start_service, start_with, StartError,
  is_same_sealer,
}
use prog_po_w_miner.Mining.Farm.Steps.{
  Step, work_set, started, stopped, timer_fired, counted, reported, failed, accepted, rejected,
  pool_changed, Steps, done, next, Numbered, Adds, Resting, IsValid,
}

Numbered-map :
    (g : Miner → Miner)
    → ((m : Miner) → (g m).index ≡ m.index)
    → (ms : List Miner) (k : ℕ) → Numbered k ms
    → Numbered k (map g ms)
Numbered-map g h [] k v = tt
Numbered-map g h (m ∷ ms) k (e, v) = (h m ∙ e, Numbered-map g h ms (suc k) v)

index_of : Miner → Option Miner → ℕ
index_of m none = m.index
index_of m (some m') = m'.index

Numbered-set :
    (ms : List Miner) (k i n : ℕ) (m : Miner)
    → get_elem? ms i ≡ some m
    → Numbered k ms
    → Numbered k (set ms i (add_hash_count n m))
unfolding add_hash_count index_of
Numbered-set [] k i n m h v = v
Numbered-set (m' ∷ ms) k zero n m h (e, v) =
    let same : m'.index ≡ m.index = ap (λ (o : Option Miner). index_of m' o) h in (rw (← same) e, v)
Numbered-set (m' ∷ ms) k (suc i) n m h (e, v) = (e, Numbered-set ms (suc k) i n m h v)

Numbered-create : (s : Sealer) (n k : ℕ) → Numbered k (create_miners s n k)
unfolding create_miners start_working new_miner
Numbered-create s zero k = tt
Numbered-create s (suc n) k =
    (refl, let e : k + 1 ≡ suc k = omega arith in rw e (Numbered-create s n (suc k)))

Numbered-append :
    (xs ys : List Miner) (k : ℕ)
    → Numbered k xs
    → Numbered (k + length xs) ys
    → Numbered k (xs ++ ys)
Numbered-append [] ys k v w = let e : k + 0 ≡ k = omega arith in rw e at w
Numbered-append (x ∷ xs) ys k (e, v) w =
    let f : k + suc (length xs) ≡ suc k + length xs = omega arith in
    (e, Numbered-append xs ys (suc k) v (rw f at w))

Adds-mono : (n m : ℕ) (ps : List WorkingProgress) → n ≤ m → All (Adds n) ps → All (Adds m) ps
Adds-mono n m [] h v = tt
Adds-mono n m (p ∷ ps) h ((few, sum), v) = ((omega arith, sum), Adds-mono n m ps h v)

Adds-smoothed : (n : ℕ) (ps : List WorkingProgress) → All (Adds n) ps → All (Adds n) (smoothed ps)
unfolding smoothed
Adds-smoothed n ps v = if_elim (All (Adds n)) _ (dropped ps v) v
  where
    dropped : (qs : List WorkingProgress) → All (Adds n) qs → All (Adds n) (drop 1 qs)
    dropped [] v = tt
    dropped (q ∷ qs) (w, v) = v

collected-Adds : (now : ℕ) (f : Farm) → Adds (length f.miners) (collected now f)
unfolding collected
collected-Adds now f = (omega (arith, length-map f.miners (λ (m : Miner). m.hash_count)), refl)

nothing_collected :
    (now : ℕ) (f : Farm)
    → f.miners ≡ []
    → f.last_progresses ≡ []
    → ((collect_hash_rate now f).miners ≡ []) × ((collect_hash_rate now f).last_progresses ≡ [])
unfolding collect_hash_rate collected smoothed sum_64
nothing_collected now f no_miners none_yet = (rw no_miners refl, rw (no_miners, none_yet) refl)

Resting-collect :
    (t : ServiceThread) (now : ℕ) (f : Farm) → Resting t f → Resting t (collect_hash_rate now f)
unfolding collect_hash_rate
Resting-collect running now f r = r
Resting-collect returned now f (idle, e, p) =
    let (e', p') = nothing_collected now f e p in (idle, e', p')
Resting-collect absent now f (idle, e, p, s) =
    let (e', p') = nothing_collected now f e p in (idle, e', p', s)

collect-IsValid : (now : ℕ) (f : Farm) → IsValid f → IsValid (collect_hash_rate now f)
unfolding collect_hash_rate reset_hash_count
collect-IsValid now f v = record {
  numbered = Numbered-map _ (λ m. refl) f.miners 0 v.numbered;
  adds = rw (length-map f.miners reset_hash_count) (
      Adds-smoothed (length f.miners) _ (
        if_elim (All (Adds (length f.miners))) _
          (All-append _ f.last_progresses _ v.adds (collected-Adds now f, tt)) v.adds));
  resting = Resting-collect f.service now f v.resting;
}

Resting-work :
    (t : ServiceThread) (now : ℕ) (wp : WorkPackage) (f : Farm)
    → Resting t f
    → Resting t (record f { work = wp; miners = map (set_miner_work now wp) f.miners })
Resting-work running now wp f r = r
Resting-work returned now wp f (idle, e, p) = (idle, rw e refl, p)
Resting-work absent now wp f (idle, e, p, s) = (idle, rw e refl, p, s)

given_work-IsValid :
    (now : ℕ) (wp : WorkPackage) (f : Farm)
    → IsValid f
    → IsValid (record f { work = wp; miners = map (set_miner_work now wp) f.miners })
unfolding set_miner_work
given_work-IsValid now wp f v = record {
  numbered = Numbered-map _ (λ m. refl) f.miners 0 v.numbered;
  adds = rw (length-map f.miners (set_miner_work now wp)) v.adds;
  resting = Resting-work f.service now wp f v.resting;
}

set_work-IsValid : (now : ℕ) (wp : WorkPackage) (f : Farm) → IsValid f → IsValid (set_work now wp f)
unfolding set_work
set_work-IsValid now wp f v =
    let c = collect_hash_rate now f in
    let w = collect-IsValid now f v in if_elim IsValid _ w (given_work-IsValid now wp c w)

stop-IsValid : (f : Farm) → IsValid f → f.is_mining ≡ true → IsValid (stop f)
unfolding stop
stop-IsValid f v mining = record { numbered = tt; adds = tt; resting = at_rest f.service v.resting }
  where
    at_rest :
        (t : ServiceThread)
        → Resting t f
        → Resting (elim t [ absent ↦ absent | running ↦ returned | returned ↦ returned ]) (stop f)
    at_rest running r = (refl, refl, refl)
    at_rest returned r = (refl, refl, refl)
    at_rest absent (idle, e, p, u) = cc

-- What `start` returns, if it returns, is valid.
Outcome : Result StartError (Bool × Farm) → Type 0
Outcome (ok (b, g)) = IsValid g
Outcome (err e) = Unit {0}

started_miners-Numbered :
    (s : Sealer) (mixed : Bool) (n : ℕ) (f : Farm)
    → IsValid f
    → Numbered 0 (
        (if mixed then f.miners else [])
        ++ create_miners s n (length (if mixed then f.miners else [])))
started_miners-Numbered s mixed n f v =
    let kept = if mixed then f.miners else [] in
    Numbered-append kept _ 0 (if_elim (Numbered 0) mixed v.numbered tt) (
      let e : 0 + length kept ≡ length kept = omega arith in
      rw e (Numbered-create s n (length kept)))

start_with-Outcome :
    (s : Sealer) (mixed : Bool) (n : ℕ) (f : Farm)
    → IsValid f
    → (t : ServiceThread) → f.service ≡ t
    → Resting t f
    → Outcome (start_with s mixed n f)
unfolding start_with start_service Outcome
start_with-Outcome s mixed n f v running e r = rw e tt
start_with-Outcome s mixed n f v returned e (idle, no_miners, none_yet) = rw e (record {
  numbered = started_miners-Numbered s mixed n f v;
  adds = rw none_yet tt;
  resting = refl;
})
start_with-Outcome s mixed n f v absent e (idle, no_miners, none_yet, fresh) =
    rw (e, fresh)
      (record {
        numbered = started_miners-Numbered s mixed n f v;
        adds = rw none_yet tt;
        resting = refl;
      })

start-Outcome : (s : Sealer) (mixed : Bool) (f : Farm) → IsValid f → Outcome (start s mixed f)
unfolding start Outcome
start-Outcome s mixed f v =
    if_elim Outcome (not (length f.miners == 0) && is_same_sealer f.last_sealer s) v
      (elim (Option-cases (f.sealers s)) [
        | inl e ↦ rw e v
        | inr (n, e) ↦ rw e (start_with-Outcome s mixed n f v f.service refl v.resting)
      ])

start-IsValid :
    (s : Sealer) (mixed b : Bool) (f g : Farm) → start s mixed f ≡ ok (b, g) → IsValid f → IsValid g
unfolding Outcome
start-IsValid s mixed b f g e v = rw e at (start-Outcome s mixed f v)

counted-IsValid :
    (i n : ℕ) (m : Miner) (f : Farm)
    → get_elem? f.miners i ≡ some m
    → IsValid f
    → IsValid (record f { miners = set f.miners i (add_hash_count n m) })
counted-IsValid i n m f h v = record {
  numbered = Numbered-set f.miners 0 i n m h v.numbered;
  adds = rw (length-set f.miners i (add_hash_count n m)) v.adds;
  resting = at_rest f.service v.resting;
}
  where
    at_rest :
        (t : ServiceThread)
        → Resting t f
        → Resting t (record f { miners = set f.miners i (add_hash_count n m) })
    at_rest running r = r
    at_rest returned (idle, e, p) = (idle, rw e refl, p)
    at_rest absent (idle, e, p, u) = (idle, rw e refl, p, u)

-- Validity reads five fields.
Resting-same :
    (t : ServiceThread) (f g : Farm)
    → g.is_mining ≡ f.is_mining
    → g.miners ≡ f.miners
    → g.last_progresses ≡ f.last_progresses
    → g.service_stopped ≡ f.service_stopped
    → Resting t f
    → Resting t g
Resting-same running f g a b c d r = a ∙ r
Resting-same returned f g a b c d (x, y, z) = (a ∙ x, b ∙ y, c ∙ z)
Resting-same absent f g a b c d (x, y, z, u) = (a ∙ x, b ∙ y, c ∙ z, d ∙ u)

Resting-of : (g : Farm) {t u : ServiceThread} → u ≡ t → Resting t g → Resting u g
Resting-of g e r = rw e r

same-IsValid :
    {f g : Farm}
    → g.service ≡ f.service
    → g.is_mining ≡ f.is_mining
    → g.miners ≡ f.miners
    → g.last_progresses ≡ f.last_progresses
    → g.service_stopped ≡ f.service_stopped
    → IsValid f
    → IsValid g
same-IsValid {f} {g} s a b c d v = record {
  numbered = rw b v.numbered;
  adds = rw (b, c) v.adds;
  resting = Resting-of g s (Resting-same f.service f g a b c d v.resting);
}

fired-IsValid : (ec : Bool) (now : ℕ) (f : Farm) → IsValid f → IsValid (process_hash_rate ec now f)
unfolding process_hash_rate
fired-IsValid true now f v = v
fired-IsValid false now f v = same-IsValid refl refl refl refl refl (collect-IsValid now f v)

-- A step from a valid farm gives a valid farm.
pub Step-IsValid : {f g : Farm} → Step f g → IsValid f → IsValid g
unfolding mining_progress failed_solution accepted_solution rejected_solution set_pool_addresses
Step-IsValid (work_set now wp {f}) v = set_work-IsValid now wp f v
Step-IsValid (started s mixed b {f} {g} e) v = start-IsValid s mixed b f g e v
Step-IsValid (stopped {f} mining) v = stop-IsValid f v mining
Step-IsValid (timer_fired ec now {f}) v = fired-IsValid ec now f v
Step-IsValid (counted i n m {f} h) v = counted-IsValid i n m f h v
Step-IsValid (reported {f}) v = same-IsValid refl refl refl refl refl v
Step-IsValid (failed {f}) v = same-IsValid refl refl refl refl refl v
Step-IsValid (accepted true {f}) v = same-IsValid refl refl refl refl refl v
Step-IsValid (accepted false {f}) v = same-IsValid refl refl refl refl refl v
Step-IsValid (rejected true {f}) v = same-IsValid refl refl refl refl refl v
Step-IsValid (rejected false {f}) v = same-IsValid refl refl refl refl refl v
Step-IsValid (pool_changed host port {f}) v = same-IsValid refl refl refl refl refl v

pub Steps-IsValid : {f g : Farm} → Steps f g → IsValid f → IsValid g
Steps-IsValid done v = v
Steps-IsValid (next ss s) v = Step-IsValid s (Steps-IsValid ss v)
