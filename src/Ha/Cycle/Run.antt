-- ===== src/Ha/Cycle/Run.antt =====
-- Procedures over the calls of `Ha`, and what holds of every run of one.
use otus_hightload.Prelude.{none, some, String, ℕ, Bool, Option}
use otus_hightload.Prelude.Int.{ℤ}
use otus_hightload.Prelude.Text.{Text}
use otus_hightload.Py.{Fields}
use otus_hightload.Ha.Cycle.Calls.{
  View, Query, Act, Call, asks, acts, Value, Failure, Reply, answers, throws,
}

-- The attributes of the `Ha` object, and of what it reads without a call.
pub record Ha : Type 0 where
  pub name : Text
  pub tags : Fields
  pub ttl : ℕ
  pub loop_wait : ℕ
  pub config : Fields
  pub view : View  -- cluster
  pub old_view : View  -- old_cluster
  pub leader_expiry : ℕ
  pub was_paused : Bool
  pub recovering : Bool
  pub join_aborted : Bool
  pub crash_recovery_started : ℕ
  pub start_timeout : Option ℤ
  pub released_leader_key : ℕ

-- A run: it returns, an exception leaves it, or it waits for the reply to a call.
pub data Run (A : Type 0) : Type 0 where
  returns : A → Ha → Run A
  raises : Failure → Ha → Run A
  calls : (c : Call) → (Reply (Value c) → Run A) → Run A

abbrev pub Proc : Type 0 → Type 0
Proc A = Ha → Run A

module _ {A B : Type 0} where
  abbrev pub and_then : Run A → (A → Proc B) → Run B
  and_then (returns a s) f = f a s
  and_then (raises e s) f = raises e s
  and_then (calls c k) f = calls c (λ r. and_then (k r) f)

  infixl 5 ◌>>=◌ ◌>>◌
  unfoldable pub ◌>>=◌ : Proc A → (A → Proc B) → Proc B
  m >>= f = λ s. and_then (m s) f

  unfoldable pub ◌>>◌ : Proc A → Proc B → Proc B
  m >> n = m >>= λ _. n

module _ {A : Type 0} where
  unfoldable pub pure : A → Proc A
  pure a s = returns a s

  unfoldable pub raise : Failure → Proc A
  raise e s = raises e s

  abbrev pub replied : Ha → Reply A → Run A
  replied s (answers a) = returns a s
  replied s (throws e) = raises e s

unfoldable pub call : (c : Call) → Proc (Value c)
call c s = calls c (replied s)

unfoldable pub ask : Query → Proc Bool
unfolding call
ask q = call (asks q)

unfoldable pub act : Act → Proc (Unit {0})
unfolding call
act a = call (acts a)

unfoldable pub self : Proc Ha
self s = returns s s

unfoldable pub become : Ha → Proc (Unit {0})
become s' s = returns tt s'

-- `if msg: return msg`
unfoldable pub msg_or : Option String → Proc String → Proc String
msg_or (some msg) rest = pure msg
msg_or none rest = rest

-- `try` and `except` around a run
abbrev pub catching : {A : Type 0} → Run A → (Failure → Proc A) → Run A
catching (returns a s) handle = returns a s
catching (raises e s) handle = handle e s
catching (calls c k) handle = calls c (λ r. catching (k r) handle)

unfoldable pub attempt : {A : Type 0} → Proc A → (Failure → Proc A) → Proc A
attempt p handle s = catching (p s) handle

-- A monitor reads the calls of a run and their replies. `Allowed` says which call may be made when;
-- `Safe` says that each call of the run is allowed, whatever the replies, and what holds
-- when the run returns or is left by an exception.
module _ {M : Type 0} (after : (c : Call) → Reply (Value c) → M → M)
    (Allowed : Call → M → Type 0) where
  module _ {A : Type 0} where
    unfoldable pub Safe : (A → Ha → M → Type 0) → (Failure → Ha → M → Type 0) → Run A → M → Type 0
    Safe Q E (returns a s) m = Q a s m
    Safe Q E (raises e s) m = E e s m
    Safe Q E (calls c k) m = Allowed c m × ((r : Reply (Value c)) → Safe Q E (k r) (after c r m))

    pub weaken-Safe :
        {Q Q' : A → Ha → M → Type 0} {E E' : Failure → Ha → M → Type 0} (run : Run A) (m : M)
        → Safe Q E run m
        → ((a : A) (s : Ha) (m' : M) → Q a s m' → Q' a s m')
        → ((e : Failure) (s : Ha) (m' : M) → E e s m' → E' e s m')
        → Safe Q' E' run m
    unfolding Safe
    weaken-Safe (returns a s) m h q f = q a s m h
    weaken-Safe (raises e s) m h q f = f e s m h
    weaken-Safe (calls c k) m h q f = (h.0, λ r. weaken-Safe (k r) (after c r m) (h.1 r) q f)

  module _ {A B : Type 0} where
    -- A step and then the rest, which is safe after whatever the step may return.
    pub then-Safe :
        (Q : A → Ha → M → Type 0) (Q' : B → Ha → M → Type 0) (E : Failure → Ha → M → Type 0)
        (run : Run A) (f : A → Proc B) (m : M)
        → Safe Q E run m
        → ((a : A) (s : Ha) (m' : M) → Q a s m' → Safe Q' E (f a s) m')
        → Safe Q' E (and_then run f) m
    unfolding Safe
    then-Safe Q Q' E (returns a s) f m h k = k a s m h
    then-Safe Q Q' E (raises e s) f m h k = h
    then-Safe Q Q' E (calls c r) f m h k =
        (h.0, λ x. then-Safe Q Q' E (r x) f (after c x m) (h.1 x) k)
