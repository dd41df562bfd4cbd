-- ===== src/Ha/Cycle/Plain.antt =====
-- Procedures that make plain calls only: those that have to do neither with the leader lock nor
-- with whether PostgreSQL is a primary, or becomes one. Such a procedure keeps every
-- invariant that its calls keep, and the configuration.
pub mod Lock
pub mod Follow
pub mod Lead
pub mod Process
pub mod Recover
pub mod Main
use mathlib.Core.Path.{subst}
use otus_hightload.Prelude.{
  refl, sym, ◌≡◌, Bool, true, false, Option, none, some, String, if◌then◌else◌,
}
use otus_hightload.Py.{Fields}
use otus_hightload.Ha.Cycle.Calls.{
  Query, Act, asks, acts, Call, Value, Failure, Reply, try_run, promote, start_primary,
  attempt_to_acquire_leader, update_leader, delete_leader, stop_to_demote, is_primary,
}
use otus_hightload.Ha.Cycle.Run.{
  msg_or, Ha, Proc, pure, raise, call, ask, act, attempt, self, become, weaken-Safe, ◌>>=◌, ◌>>◌,
}
use otus_hightload.Ha.Cycle.Rules.{
  Keeps, Fits, pure-Keeps, raise-Keeps, own-Keeps, become-Keeps, call-Keeps, bind-Keeps,
  attempt-Keeps,
}

abbrev pub IsPlainCall : Call → Type 0
IsPlainCall (asks (try_run promote)) = ⊥
IsPlainCall (asks (try_run start_primary)) = ⊥
IsPlainCall (asks attempt_to_acquire_leader) = ⊥
IsPlainCall (asks (update_leader _)) = ⊥
IsPlainCall (asks is_primary) = ⊥
IsPlainCall (acts delete_leader) = ⊥
IsPlainCall (stop_to_demote _) = ⊥
IsPlainCall _ = Unit

-- The configuration stays `o`.
unfoldable pub IsPlain : Fields → {A : Type 0} → Proc A → Type 1
IsPlain o p =
    (M : Type 0) (after : (c : Call) → Reply (Value c) → M → M) (Allowed : Call → M → Type 0)
    (I : M → Type 0)
    → ((c : Call) → IsPlainCall c → Fits after Allowed I c)
    → Keeps after Allowed (λ config. config ≡ o) I p

module _ (o : Fields) where
  module _ {A : Type 0} where
    pub pure-IsPlain : (a : A) → IsPlain o (pure a)
    unfolding IsPlain
    pure-IsPlain a M after Allowed I fits = pure-Keeps after Allowed (λ config. config ≡ o) I a

    pub cond-IsPlain :
        (b : Bool) (p q : Proc A) → IsPlain o p → IsPlain o q → IsPlain o (if b then p else q)
    cond-IsPlain true p q hp hq = hp
    cond-IsPlain false p q hp hq = hq

  pub raise-IsPlain : (A : Type 0) (e : Failure) → IsPlain o {A = A} (raise e)
  unfolding IsPlain
  raise-IsPlain A e M after Allowed I fits = raise-Keeps after Allowed (λ config. config ≡ o) I A e

  pub own-IsPlain :
      (A : Type 0) (f : Ha → Proc A)
      → ((s : Ha) → s.config ≡ o → IsPlain o (f s))
      → IsPlain o (self >>= f)
  unfolding IsPlain
  own-IsPlain A f h M after Allowed I fits =
      own-Keeps after Allowed (λ config. config ≡ o) I A f (λ s e. h s e M after Allowed I fits)

  pub become-IsPlain : (s : Ha) → s.config ≡ o → IsPlain o (become s)
  unfolding IsPlain
  become-IsPlain s e M after Allowed I fits =
      become-Keeps after Allowed (λ config. config ≡ o) I s e

  pub call-IsPlain : (c : Call) → IsPlainCall c → IsPlain o (call c)
  unfolding IsPlain
  call-IsPlain c h M after Allowed I fits =
      call-Keeps after Allowed (λ config. config ≡ o) I c (fits c h)

  pub ask-IsPlain : (q : Query) → IsPlainCall (asks q) → IsPlain o (ask q)
  unfolding ask
  ask-IsPlain q h = call-IsPlain (asks q) h

  pub act-IsPlain : (a : Act) → IsPlainCall (acts a) → IsPlain o (act a)
  unfolding act
  act-IsPlain a h = call-IsPlain (acts a) h

  module _ {A B : Type 0} where
    pub bind-IsPlain :
        (p : Proc A) (f : A → Proc B)
        → IsPlain o p
        → ((a : A) → IsPlain o (f a))
        → IsPlain o (p >>= f)
    unfolding IsPlain
    bind-IsPlain p f hp hf M after Allowed I fits =
        bind-Keeps after Allowed (λ config. config ≡ o) I p f (hp M after Allowed I fits)
          (λ a. hf a M after Allowed I fits)

    pub then-IsPlain : (p : Proc A) (q : Proc B) → IsPlain o p → IsPlain o q → IsPlain o (p >> q)
    unfolding ◌>>◌
    then-IsPlain p q hp hq = bind-IsPlain p (λ _. q) hp (λ _. hq)

  pub msg_or-IsPlain : (m : Option String) (p : Proc String) → IsPlain o p → IsPlain o (msg_or m p)
  unfolding msg_or
  msg_or-IsPlain none p h = h
  msg_or-IsPlain (some msg) p h = pure-IsPlain msg

  pub attempt-IsPlain :
      (A : Type 0) (p : Proc A) (handle : Failure → Proc A)
      → IsPlain o p
      → ((e : Failure) → IsPlain o (handle e))
      → IsPlain o (attempt p handle)
  unfolding IsPlain
  attempt-IsPlain A p handle hp hh M after Allowed I fits =
      attempt-Keeps after Allowed (λ config. config ≡ o) I A p handle (hp M after Allowed I fits)
        (λ e. hh e M after Allowed I fits)

-- A plain procedure keeps what its calls keep, and all that is known of the configuration.
pub plain-Keeps :
    {A M : Type 0} (after : (c : Call) → Reply (Value c) → M → M) (Allowed : Call → M → Type 0)
    (C : Fields → Type 0) (I : M → Type 0) (p : Proc A)
    → ((c : Call) → IsPlainCall c → Fits after Allowed I c)
    → ((o : Fields) → IsPlain o p)
    → Keeps after Allowed C I p
unfolding IsPlain Keeps
plain-Keeps {M = M} after Allowed C I p fits h s m k i =
    weaken-Safe after Allowed (p s) m (h s.config M after Allowed I fits s m refl i)
      (λ a s' m' j. (subst C (sym j.0) k, j.1)) (λ e s' m' j. (subst C (sym j.0) k, j.1))

pub ruleset plain_rules = (
  own-IsPlain, pure-IsPlain, cond-IsPlain, raise-IsPlain, become-IsPlain, call-IsPlain, ask-IsPlain,
  act-IsPlain, bind-IsPlain, then-IsPlain, msg_or-IsPlain, attempt-IsPlain,
)
