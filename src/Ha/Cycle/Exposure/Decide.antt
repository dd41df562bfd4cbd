-- ===== src/Ha/Cycle/Exposure/Decide.antt =====
-- The decisions of ha.py that follow what PostgreSQL says that it is, and the answer on the lock.
use otus_hightload.Prelude.{Bool, true, false, Option, ◌≡◌, refl, arith, if◌then◌else◌}
use otus_hightload.Prelude.Int.{ℤ}
use otus_hightload.Ha.Cycle.Calls.{Reply, answers, throws, is_primary, stop_to_demote, DemoteMode}
use otus_hightload.Ha.Cycle.Run.{
  Proc, Safe, Ha, ask, call, replied, ◌>>=◌, ◌>>◌, weaken-Safe, then-Safe, and_then,
}
use otus_hightload.Ha.Cycle.Rules.{Keeps}
use otus_hightload.Ha.Cycle.Exposure.{
  Watch, Settles, Anything, watch_after, Free, IsCovered, IsUnpaused, Unknown, Stopped, Holds,
  Keeping, Ends, Leads, Demotes, Tells, answered,
}

asked-Ends :
    {A : Type 0} (r : Reply Bool) (f : Bool → Proc A) (s : Ha) (w : Watch)
    → Demotes (f true)
    → Keeping Unknown (f false)
    → IsUnpaused s.config
    → w.leads ≡ answered r
    → Safe watch_after Free (λ _ _ w'. IsCovered w') (λ _ _ _. Unit) (and_then (replied s r) f) w
unfolding Demotes Keeps answered Safe
asked-Ends (answers true) f s w ht hf k e =
    weaken-Safe watch_after Free (f true s) w (ht s w k) (λ _ _ _ j. ground (arith, j.1))
      (λ _ _ _ _. tt)
asked-Ends (answers false) f s w ht hf k e =
    weaken-Safe watch_after Free (f false s) w (hf s w k e) (λ _ _ _ j. ground (arith, j.1))
      (λ _ _ _ _. tt)
asked-Ends (throws x) f s w ht hf k e = tt

-- PostgreSQL is asked whether it is a primary: if so it is demoted.
pub primary-Settles :
    {A : Type 0} (f : Bool → Proc A)
    → Demotes (f true)
    → Keeping Unknown (f false)
    → Settles (ask is_primary >>= f)
unfolding Settles ask call ◌>>=◌ Safe watch_after
primary-Settles f ht hf s w k =
    (tt, λ r. asked-Ends r f s (record w { leads = answered r }) ht hf k refl)

module _ {A : Type 0} where
  decided-Ends :
      (b : Bool) (f : Bool → Proc A) (q : Proc A) (s : Ha) (w : Watch)
      → Leads (f b)
      → Ends q
      → IsUnpaused s.config
      → Unknown w
      → (b ≡ true → Holds w)
      → Safe watch_after Free (λ _ _ w'. IsCovered w') (λ _ _ _. Unit) ((if b then f b else q) s) w
  unfolding Ends Leads
  decided-Ends true f q s w hf hq k i h = hf s w k (i, h refl)
  decided-Ends false f q s w hf hq k i h = hq s w k i

  -- The lock decides.
  pub lock-Settles :
      (p : Proc Bool) (f : Bool → Proc A) (q : Proc A)
      → Tells p
      → ((b : Bool) → Leads (f b))
      → Ends q
      → Settles (p >>= λ b. if b then f b else q)
  unfolding Settles Tells ◌>>=◌
  lock-Settles p f q hp hf hq s w k =
      then-Safe watch_after Free
        (λ b s' w'. IsUnpaused s'.config × Unknown w' × (b ≡ true → Holds w'))
        (λ _ _ w'. IsCovered w') (λ _ _ _. Unit) (p s) (λ b. if b then f b else q) w (hp s w k)
        (λ b s' w' j. decided-Ends b f q s' w' (hf b) hq j.0 j.1 j.2)

  Stopped-Demotes :
      (r : Reply (Option ℤ)) (f : Option ℤ → Proc A) (s : Ha) (w : Watch)
      → ((o : Option ℤ) → Keeping Stopped (f o))
      → IsUnpaused s.config
      → Stopped w
      → Safe watch_after Free
          (λ _ s' w'. IsUnpaused s'.config × Stopped w')
          (λ _ _ _. Unit)
          (and_then (replied s r) f)
          w
  unfolding Keeps Safe
  Stopped-Demotes (answers o) f s w h k i =
      weaken-Safe watch_after Free (f o s) w (h o s w k i) (λ _ _ _ j. j) (λ _ _ _ _. tt)
  Stopped-Demotes (throws x) f s w h k i = tt

  -- PostgreSQL is stopped, whatever comes before and after.
  pub stop-Demotes :
      (mode : DemoteMode) (f : Option ℤ → Proc A)
      → ((o : Option ℤ) → Keeping Stopped (f o))
      → Demotes (call (stop_to_demote mode) >>= f)
  unfolding Demotes Keeps call ◌>>=◌ Safe watch_after
  stop-Demotes mode f h s w k =
      (tt, λ r. Stopped-Demotes r f s (record w { stopped = true }) h k refl)

  -- what is done before a demotion
  pub bind-Demotes :
      {B : Type 0} (p : Proc B) (f : B → Proc A)
      → Keeping Anything p
      → ((b : B) → Demotes (f b))
      → Demotes (p >>= f)
  unfolding Demotes Keeps ◌>>=◌
  bind-Demotes p f hp hf s w k =
      then-Safe watch_after Free (λ _ s' w'. IsUnpaused s'.config × Anything w')
        (λ _ s' w'. IsUnpaused s'.config × Stopped w') (λ _ _ _. Unit) (p s) f w
        (weaken-Safe watch_after Free (p s) w (hp s w k tt) (λ _ _ _ j. j) (λ _ _ _ _. tt))
        (λ a s' w' j. hf a s' w' j.0)

  pub then_any-Demotes :
      {B : Type 0} (p : Proc B) (q : Proc A) → Keeping Anything p → Demotes q → Demotes (p >> q)
  unfolding ◌>>◌
  then_any-Demotes p q hp hq = bind-Demotes p (λ _. q) hp (λ _. hq)
