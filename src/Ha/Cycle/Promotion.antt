-- ===== src/Ha/Cycle/Promotion.antt =====
-- When a pass of the HA loop begins to promote PostgreSQL, or to restart it as a primary: the
-- calls of ha.py seen by a monitor of the leader lock.
pub mod Quiet
pub mod Begin
pub mod Pass
use otus_hightload.Prelude.{
  Bool, true, false, Option, none, some, String, ◌≡◌, refl, arith, if◌then◌else◌,
}
use otus_hightload.Py.{Fields}
use otus_hightload.Ha.Cycle.Calls.{
  Call, asks, acts, Value, Reply, answers, throws, promote, start_primary, try_run,
  attempt_to_acquire_leader, update_leader, delete_leader,
}
use otus_hightload.Ha.Cycle.Run.{Proc, Safe, Ha, pure, ◌>>=◌, ◌>>◌, msg_or, weaken-Safe, then-Safe}
use otus_hightload.Ha.Cycle.Rules.{Keeps, Fits, pure-Keeps}
use otus_hightload.Ha.Cycle.Plain.{IsPlain, IsPlainCall, plain-Keeps}

answered : Reply Bool → Bool
answered (answers b) = b
answered (throws _) = false

-- Whether the last answer on the lock was that it is held, and it has not been released since.
unfoldable pub lock_after : (c : Call) → Reply (Value c) → Bool → Bool
unfolding answered
lock_after (asks attempt_to_acquire_leader) r held = answered r
lock_after (asks (update_leader _)) r held = answered r
lock_after (acts delete_leader) r held = false
lock_after c r held = held

unfoldable pub MayLead : Call → Bool → Type 0
MayLead (asks (try_run promote)) held = held ≡ true
MayLead (asks (try_run start_primary)) held = held ≡ true
MayLead c held = Unit

abbrev pub Anything : Bool → Type 0
Anything held = Unit

-- nothing is asked of the configuration
abbrev pub Anyhow : Fields → Type 0
Anyhow config = Unit

abbrev pub Held : Bool → Type 0
Held held = held ≡ true

-- neither promotes nor restarts a primary, whether or not the lock is held
abbrev pub IsQuiet : {A : Type 0} → Proc A → Type 0
IsQuiet p = Keeps lock_after MayLead Anyhow Anything p

-- keeps the lock
abbrev pub IsHolding : {A : Type 0} → Proc A → Type 0
IsHolding p = Keeps lock_after MayLead Anyhow Held p

-- promotes, and restarts a primary, only while the lock is held, if it is held at the start
unfoldable pub Begins : {A : Type 0} → Proc A → Type 0
Begins {A = A} p =
    (s : Ha) (m : Bool)
    → m ≡ true
    → Safe lock_after MayLead {A = A} (λ _ _ _. Unit) (λ _ _ _. Unit) (p s) m

-- answers `True` only with the lock held
unfoldable pub Tells : Proc Bool → Type 0
Tells p =
    (s : Ha) (m : Bool)
    → Safe lock_after MayLead (λ b _ m'. b ≡ true → m' ≡ true) (λ _ _ _. Unit) (p s) m

abbrev pub IsQuietCall : Call → Type 0
IsQuietCall (asks (try_run promote)) = ⊥
IsQuietCall (asks (try_run start_primary)) = ⊥
IsQuietCall c = Unit

pub quiet-Fits : (c : Call) → IsQuietCall c → Fits lock_after MayLead Anything c
unfolding MayLead
quiet-Fits (asks (try_run promote)) h = absurd h
quiet-Fits (asks (try_run start_primary)) h = absurd h
quiet-Fits c h = λ m i. (tt, λ r. tt)

plain-Fits : (c : Call) → IsPlainCall c → Fits lock_after MayLead Anything c
unfolding MayLead
plain-Fits (asks (try_run promote)) h = absurd h
plain-Fits (asks (try_run start_primary)) h = absurd h
plain-Fits c h = λ m i. (tt, λ r. tt)

pub holding-Fits : (c : Call) → IsPlainCall c → Fits lock_after MayLead Held c
unfolding MayLead lock_after
holding-Fits (asks (try_run promote)) h = absurd h
holding-Fits (asks (try_run start_primary)) h = absurd h
holding-Fits (asks attempt_to_acquire_leader) h = absurd h
holding-Fits (asks (update_leader _)) h = absurd h
holding-Fits (acts delete_leader) h = absurd h
holding-Fits c h = λ m i. (tt, λ r. i)

-- what may be called while the lock is held, and keeps it
abbrev pub IsLeadCall : Call → Type 0
IsLeadCall (asks attempt_to_acquire_leader) = ⊥
IsLeadCall (asks (update_leader _)) = ⊥
IsLeadCall (acts delete_leader) = ⊥
IsLeadCall c = Unit

pub lead-Fits : (c : Call) → IsLeadCall c → Fits lock_after MayLead Held c
unfolding MayLead lock_after
lead-Fits (asks (try_run promote)) h = λ m i. (i, λ r. i)
lead-Fits (asks (try_run start_primary)) h = λ m i. (i, λ r. i)
lead-Fits (asks attempt_to_acquire_leader) h = absurd h
lead-Fits (asks (update_leader _)) h = absurd h
lead-Fits (acts delete_leader) h = absurd h
lead-Fits c h = λ m i. (tt, λ r. i)

module _ {A : Type 0} where
  pub plain-IsQuiet : (p : Proc A) → ((o : Fields) → IsPlain o p) → IsQuiet p
  plain-IsQuiet p h = plain-Keeps lock_after MayLead Anyhow Anything p plain-Fits h

  pub plain-IsHolding : (p : Proc A) → ((o : Fields) → IsPlain o p) → IsHolding p
  plain-IsHolding p h = plain-Keeps lock_after MayLead Anyhow Held p holding-Fits h

  pub quiet-Safe :
      (p : Proc A)
      → IsQuiet p
      → (s : Ha) (m : Bool) → Safe lock_after MayLead (λ _ _ _. Unit) (λ _ _ _. Unit) (p s) m
  unfolding Keeps
  quiet-Safe p h s m =
      weaken-Safe lock_after MayLead (p s) m (h s m tt tt) (λ _ _ _ _. tt) (λ _ _ _ _. tt)

  safe-IsQuiet :
      (p : Proc A)
      → ((s : Ha) (m : Bool) → Safe lock_after MayLead (λ _ _ _. Unit) (λ _ _ _. Unit) (p s) m)
      → IsQuiet p
  unfolding Keeps
  safe-IsQuiet p h s m k i =
      weaken-Safe lock_after MayLead (p s) m (h s m) (λ _ _ _ _. (tt, tt)) (λ _ _ _ _. (tt, tt))

  pub quiet-Begins : (p : Proc A) → IsQuiet p → Begins p
  unfolding Begins
  quiet-Begins p h s m held = quiet-Safe p h s m

  pub holding-Begins : (p : Proc A) → IsHolding p → Begins p
  unfolding Begins Keeps
  holding-Begins p h s m held =
      weaken-Safe lock_after MayLead (p s) m (h s m tt held) (λ _ _ _ _. tt) (λ _ _ _ _. tt)

  pub cond-Begins : (b : Bool) (p q : Proc A) → Begins p → Begins q → Begins (if b then p else q)
  cond-Begins true p q hp hq = hp
  cond-Begins false p q hp hq = hq

module _ {A B : Type 0} where
  pub bind-Begins :
      (p : Proc A) (f : A → Proc B) → IsHolding p → ((a : A) → Begins (f a)) → Begins (p >>= f)
  unfolding Begins Keeps ◌>>=◌
  bind-Begins p f hp hf s m held =
      then-Safe lock_after MayLead (λ _ _ m'. m' ≡ true) (λ _ _ _. Unit) (λ _ _ _. Unit) (p s) f m
        (weaken-Safe lock_after MayLead (p s) m (hp s m tt held) (λ _ _ _ h. h.1) (λ _ _ _ _. tt))
        (λ a s' m'. hf a s' m')

  pub then-Begins : (p : Proc A) (q : Proc B) → IsHolding p → Begins q → Begins (p >> q)
  unfolding ◌>>◌
  then-Begins p q hp hq = bind-Begins p (λ _. q) hp (λ _. hq)

pub msg_or-Begins : (o : Option String) (p : Proc String) → Begins p → Begins (msg_or o p)
unfolding msg_or
msg_or-Begins none p h = h
msg_or-Begins (some msg) p h =
    quiet-Begins (pure msg) (pure-Keeps lock_after MayLead Anyhow Anything msg)

pub ruleset begins_rules = (
  bind-Begins, then-Begins, cond-Begins, msg_or-Begins, holding-Begins, plain-IsHolding,
  quiet-Begins,
)

no_lock-Tells : Tells (pure false)
unfolding Tells pure Safe
no_lock-Tells s m = λ e. ground arith

pub cond-Tells : (b : Bool) (p : Proc Bool) → Tells p → Tells (if b then p else pure false)
cond-Tells true p h = h
cond-Tells false p h = no_lock-Tells

lock_decides :
    {A : Type 0} (b : Bool) (p q : Proc A) (s : Ha) (m : Bool)
    → Begins p
    → IsQuiet q
    → (b ≡ true → m ≡ true)
    → Safe lock_after MayLead (λ _ _ _. Unit) (λ _ _ _. Unit) ((if b then p else q) s) m
unfolding Begins Keeps
lock_decides true p q s m hp hq e = hp s m (e refl)
lock_decides false p q s m hp hq e = quiet-Safe q hq s m

-- The lock decides: what is done with it begins with it, and the rest is quiet.
pub lock-IsQuiet :
    {A : Type 0} (p : Proc Bool) (f : Bool → Proc A) (q : Proc A)
    → Tells p
    → ((b : Bool) → Begins (f b))
    → IsQuiet q
    → IsQuiet (p >>= λ b. if b then f b else q)
unfolding Tells ◌>>=◌
lock-IsQuiet p f q hp hf hq = safe-IsQuiet (p >>= λ b. if b then f b else q) (λ s m.
    then-Safe lock_after MayLead (λ b _ m'. b ≡ true → m' ≡ true) (λ _ _ _. Unit) (λ _ _ _. Unit)
      (p s) (λ b. if b then f b else q) m (hp s m)
      (λ b s' m' e. lock_decides b (f b) q s' m' (hf b) hq e))
