-- ===== src/Ha/Cycle/Exposure.antt =====
-- A primary that has lost the leader lock: the calls of ha.py seen by a monitor of the lock, of
-- what PostgreSQL says that it is, and of demotions.
pub mod Decide
pub mod Step
pub mod Pass
use mathlib.Core.Path.{subst}
use otus_hightload.Prelude.{
  sym, Bool, true, false, not, ◌||◌, Option, none, some, String, ◌≡◌, refl, arith, if◌then◌else◌,
}
use otus_hightload.Py.{Fields}
use otus_hightload.GlobalConfig.{is_paused}
use otus_hightload.Ha.Cycle.Calls.{
  Call, asks, acts, Value, Reply, answers, throws, attempt_to_acquire_leader, update_leader,
  delete_leader, is_primary, stop_to_demote,
}
use otus_hightload.Ha.Cycle.Run.{
  Proc, Safe, Ha, pure, self, ◌>>=◌, ◌>>◌, msg_or, weaken-Safe, then-Safe,
}
use otus_hightload.Ha.Cycle.Rules.{Keeps, Fits, keeps_rules}
use otus_hightload.Ha.Cycle.Plain.{IsPlain, IsPlainCall, plain-Keeps}

pub record Watch : Type 0 where
  pub held : Bool  -- the last answer on the lock, until it is released
  pub leads : Bool  -- the last answer of `is_primary` since the last answer on the lock
  pub stopped : Bool  -- a demotion has stopped PostgreSQL, or has tried to

answered : Reply Bool → Bool
answered (answers b) = b
answered (throws _) = false

unfoldable pub watch_after : (c : Call) → Reply (Value c) → Watch → Watch
unfolding answered
watch_after (asks attempt_to_acquire_leader) r w = record w { held = answered r; leads = false }
watch_after (asks (update_leader _)) r w = record w { held = answered r; leads = false }
watch_after (acts delete_leader) r w = record w { held = false }
watch_after (asks is_primary) r w = record w { leads = answered r }
watch_after (stop_to_demote _) r w = record w { stopped = true }
watch_after c r w = w

abbrev pub Free : Call → Watch → Type 0
Free c w = Unit

-- PostgreSQL is not known to be a primary, or the lock is held, or PostgreSQL is demoted.
abbrev pub IsCovered : Watch → Type 0
IsCovered w = (not w.leads || w.held || w.stopped) ≡ true

abbrev pub IsUnpaused : Fields → Type 0
IsUnpaused config = is_paused config ≡ false

abbrev pub Unknown : Watch → Type 0
Unknown w = w.leads ≡ false

abbrev pub Stopped : Watch → Type 0
Stopped w = w.stopped ≡ true

abbrev pub Holds : Watch → Type 0
Holds w = w.held ≡ true

abbrev pub Ready : Watch → Type 0
Ready w = (w.leads ≡ false) × (w.held ≡ true)

abbrev pub Keeping : (Watch → Type 0) → {A : Type 0} → Proc A → Type 0
Keeping I p = Keeps watch_after Free IsUnpaused I p

-- ends covered, outside a pause, if nothing is known at the start
unfoldable pub Ends : {A : Type 0} → Proc A → Type 0
Ends {A = A} p =
    (s : Ha) (w : Watch)
    → IsUnpaused s.config
    → Unknown w
    → Safe watch_after Free {A = A} (λ _ _ w'. IsCovered w') (λ _ _ _. Unit) (p s) w

-- nothing is known
abbrev pub Anything : Watch → Type 0
Anything w = Unit

-- ends covered, outside a pause, whatever is known at the start
unfoldable pub Settles : {A : Type 0} → Proc A → Type 0
Settles {A = A} p =
    (s : Ha) (w : Watch)
    → IsUnpaused s.config
    → Safe watch_after Free {A = A} (λ _ _ w'. IsCovered w') (λ _ _ _. Unit) (p s) w

-- the same with the lock held
unfoldable pub Leads : {A : Type 0} → Proc A → Type 0
Leads {A = A} p =
    (s : Ha) (w : Watch)
    → IsUnpaused s.config
    → Ready w
    → Safe watch_after Free {A = A} (λ _ _ w'. IsCovered w') (λ _ _ _. Unit) (p s) w

-- has PostgreSQL demoted
unfoldable pub Demotes : {A : Type 0} → Proc A → Type 0
Demotes {A = A} p =
    (s : Ha) (w : Watch)
    → IsUnpaused s.config
    → Safe watch_after Free {A = A} (λ _ s' w'. IsUnpaused s'.config × Stopped w') (λ _ _ _. Unit)
        (p s) w

-- answers `True` only with the lock held, and asks whether PostgreSQL is a primary at most before
unfoldable pub Tells : Proc Bool → Type 0
Tells p =
    (s : Ha) (w : Watch)
    → IsUnpaused s.config
    → Safe watch_after Free (λ b s' w'. IsUnpaused s'.config × Unknown w' × (b ≡ true → Holds w'))
        (λ _ _ _. Unit) (p s) w

abbrev pub IsBlindCall : Call → Type 0
IsBlindCall (asks is_primary) = ⊥
IsBlindCall c = Unit

pub blind-Fits : (c : Call) → IsBlindCall c → Fits watch_after Free Unknown c
unfolding watch_after
blind-Fits (asks is_primary) h = absurd h
blind-Fits c h = λ w i. (tt, λ r. ground arith)

pub Stopped-Fits : (c : Call) → Fits watch_after Free Stopped c
unfolding watch_after
Stopped-Fits c = λ w i. (tt, λ r. ground arith)

abbrev pub IsHoldingCall : Call → Type 0
IsHoldingCall (asks attempt_to_acquire_leader) = ⊥
IsHoldingCall (asks (update_leader _)) = ⊥
IsHoldingCall (acts delete_leader) = ⊥
IsHoldingCall c = Unit

pub holding-Fits : (c : Call) → IsHoldingCall c → Fits watch_after Free Holds c
unfolding watch_after
holding-Fits (asks attempt_to_acquire_leader) h = absurd h
holding-Fits (asks (update_leader _)) h = absurd h
holding-Fits (acts delete_leader) h = absurd h
holding-Fits c h = λ w i. (tt, λ r. ground arith)

plain_watch : (c : Call) → IsPlainCall c → (r : Reply (Value c)) (w : Watch) → watch_after c r w ≡ w
unfolding watch_after
plain_watch (asks attempt_to_acquire_leader) h = absurd h
plain_watch (asks (update_leader _)) h = absurd h
plain_watch (asks is_primary) h = absurd h
plain_watch (acts delete_leader) h = absurd h
plain_watch (stop_to_demote _) h = absurd h
plain_watch c h = λ r w. refl

pub plain-Fits : (I : Watch → Type 0) (c : Call) → IsPlainCall c → Fits watch_after Free I c
plain-Fits I c h w i = (tt, λ r. subst I (sym (plain_watch c h r w)) i)

pub plain-Keeping :
    (I : Watch → Type 0) {A : Type 0} (p : Proc A) → ((o : Fields) → IsPlain o p) → Keeping I p
plain-Keeping I p h = plain-Keeps watch_after Free IsUnpaused I p (plain-Fits I) h

module _ {A : Type 0} where
  pub cond-Ends : (b : Bool) (p q : Proc A) → Ends p → Ends q → Ends (if b then p else q)
  cond-Ends true p q hp hq = hp
  cond-Ends false p q hp hq = hq

  pub blind-Ends : (p : Proc A) → Keeping Unknown p → Ends p
  unfolding Ends Keeps
  blind-Ends p h s w k i =
      weaken-Safe watch_after Free (p s) w (h s w k i) (λ a s' w' j. ground (arith, j.1))
        (λ _ _ _ _. tt)

  pub ends-Leads : (p : Proc A) → Ends p → Leads p
  unfolding Ends Leads
  ends-Leads p h s w k i = h s w k i.0

  pub holding-Leads : (p : Proc A) → Keeping Holds p → Leads p
  unfolding Leads Keeps
  holding-Leads p h s w k i =
      weaken-Safe watch_after Free (p s) w (h s w k i.1) (λ a s' w' j. ground (arith, j.1))
        (λ _ _ _ _. tt)

  pub cond-Leads : (b : Bool) (p q : Proc A) → Leads p → Leads q → Leads (if b then p else q)
  cond-Leads true p q hp hq = hp
  cond-Leads false p q hp hq = hq

  pub own-Ends :
      (f : Ha → Proc A) → ((s : Ha) → IsUnpaused s.config → Ends (f s)) → Ends (self >>= f)
  unfolding Ends ◌>>=◌ self
  own-Ends f h s w k i = h s k s w k i

  pub own-Leads :
      (f : Ha → Proc A) → ((s : Ha) → IsUnpaused s.config → Leads (f s)) → Leads (self >>= f)
  unfolding Leads ◌>>=◌ self
  own-Leads f h s w k i = h s k s w k i

  pub own-Demotes :
      (f : Ha → Proc A) → ((s : Ha) → IsUnpaused s.config → Demotes (f s)) → Demotes (self >>= f)
  unfolding Demotes ◌>>=◌ self
  own-Demotes f h s w k = h s k s w k

  pub untrue-Demotes :
      (b : Bool) (p q : Proc A) → b ≡ false → Demotes q → Demotes (if b then p else q)
  untrue-Demotes true p q e h = ground arith
  untrue-Demotes false p q e h = h

  pub true-Demotes : (p q : Proc A) → Demotes p → Demotes (if true then p else q)
  true-Demotes p q h = h

  pub untrue-Ends : (b : Bool) (p q : Proc A) → b ≡ false → Ends q → Ends (if b then p else q)
  untrue-Ends true p q e h = ground arith
  untrue-Ends false p q e h = h

module _ {A : Type 0} where
  pub Settles-Ends : (p : Proc A) → Settles p → Ends p
  unfolding Ends Settles
  Settles-Ends p h s w k i = h s w k

  pub cond-Settles :
      (b : Bool) (p q : Proc A) → Settles p → Settles q → Settles (if b then p else q)
  cond-Settles true p q hp hq = hp
  cond-Settles false p q hp hq = hq

  pub own-Settles :
      (f : Ha → Proc A) → ((s : Ha) → IsUnpaused s.config → Settles (f s)) → Settles (self >>= f)
  unfolding Settles ◌>>=◌ self
  own-Settles f h s w k = h s k s w k

module _ {A B : Type 0} where
  pub bind-Settles :
      (p : Proc A) (f : A → Proc B)
      → Keeping Anything p
      → ((a : A) → Settles (f a))
      → Settles (p >>= f)
  unfolding Settles Keeps ◌>>=◌
  bind-Settles p f hp hf s w k =
      then-Safe watch_after Free (λ _ s' w'. IsUnpaused s'.config × Anything w')
        (λ _ _ w'. IsCovered w') (λ _ _ _. Unit) (p s) f w
        (weaken-Safe watch_after Free (p s) w (hp s w k tt) (λ _ _ _ j. j) (λ _ _ _ _. tt))
        (λ a s' w' j. hf a s' w' j.0)

  pub then-Settles : (p : Proc A) (q : Proc B) → Keeping Anything p → Settles q → Settles (p >> q)
  unfolding ◌>>◌
  then-Settles p q hp hq = bind-Settles p (λ _. q) hp (λ _. hq)

  pub bind-Ends :
      (p : Proc A) (f : A → Proc B) → Keeping Unknown p → ((a : A) → Ends (f a)) → Ends (p >>= f)
  unfolding Ends Keeps ◌>>=◌
  bind-Ends p f hp hf s w k i =
      then-Safe watch_after Free (λ _ s' w'. IsUnpaused s'.config × Unknown w')
        (λ _ _ w'. IsCovered w') (λ _ _ _. Unit) (p s) f w
        (weaken-Safe watch_after Free (p s) w (hp s w k i) (λ _ _ _ j. j) (λ _ _ _ _. tt))
        (λ a s' w' j. hf a s' w' j.0 j.1)

  pub then-Ends : (p : Proc A) (q : Proc B) → Keeping Unknown p → Ends q → Ends (p >> q)
  unfolding ◌>>◌
  then-Ends p q hp hq = bind-Ends p (λ _. q) hp (λ _. hq)

  pub bind-Leads :
      (p : Proc A) (f : A → Proc B) → Keeping Ready p → ((a : A) → Leads (f a)) → Leads (p >>= f)
  unfolding Leads Keeps ◌>>=◌
  bind-Leads p f hp hf s w k i =
      then-Safe watch_after Free (λ _ s' w'. IsUnpaused s'.config × Ready w')
        (λ _ _ w'. IsCovered w') (λ _ _ _. Unit) (p s) f w
        (weaken-Safe watch_after Free (p s) w (hp s w k i) (λ _ _ _ j. j) (λ _ _ _ _. tt))
        (λ a s' w' j. hf a s' w' j.0 j.1)

  pub then-Leads : (p : Proc A) (q : Proc B) → Keeping Ready p → Leads q → Leads (p >> q)
  unfolding ◌>>◌
  then-Leads p q hp hq = bind-Leads p (λ _. q) hp (λ _. hq)

  pub then-Demotes : (p : Proc A) (q : Proc B) → Demotes p → Keeping Stopped q → Demotes (p >> q)
  unfolding Demotes Keeps ◌>>◌ ◌>>=◌
  then-Demotes p q hp hq s w k =
      then-Safe watch_after Free (λ _ s' w'. IsUnpaused s'.config × Stopped w')
        (λ _ s' w'. IsUnpaused s'.config × Stopped w') (λ _ _ _. Unit) (p s) (λ _. q) w (hp s w k)
        (λ a s' w' j.
          weaken-Safe watch_after Free (q s') w' (hq s' w' j.0 j.1) (λ _ _ _ i. i) (λ _ _ _ _. tt))

pub msg_or-Leads : (m : Option String) (p : Proc String) → Leads p → Leads (msg_or m p)
unfolding msg_or
msg_or-Leads none p h = h
msg_or-Leads (some msg) p h = ends-Leads (pure msg) (blind-Ends (pure msg) (search (keeps_rules)))
