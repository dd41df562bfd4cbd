-- ===== src/Ha/Cycle/Rules.antt =====
-- Rules for invariants of the calls of a procedure, one for each way to compose procedures.
use otus_hightload.Prelude.{
  ◌≡◌, arith, none, some, String, Option, Bool, true, false, if◌then◌else◌,
}
use otus_hightload.Py.{Fields}
use otus_hightload.Ha.Cycle.Calls.{
  Query, Act, asks, acts, Call, Value, Failure, Reply, answers, throws,
}
use otus_hightload.Ha.Cycle.Run.{
  msg_or, calls, raises, returns, catching, Run, Ha, Proc, pure, raise, call, ask, act, attempt,
  self, become, replied, ◌>>=◌, ◌>>◌, Safe, then-Safe,
}

-- The call is allowed while the invariant holds, and every reply keeps it.
abbrev pub Fits :
    {M : Type 0} (after : (c : Call) → Reply (Value c) → M → M) (Allowed : Call → M → Type 0)
    (I : M → Type 0)
    → Call
    → Type 0
Fits {M = M} after Allowed I c =
    (m : M) → I m → Allowed c m × ((r : Reply (Value c)) → I (after c r m))

module _ {M : Type 0} (after : (c : Call) → Reply (Value c) → M → M) (Allowed : Call → M → Type 0)
    (C : Fields → Type 0) (I : M → Type 0) where
  abbrev Kept : {A : Type 0} → A → Ha → M → Type 0
  Kept _ s m = C s.config × I m

  -- Each call of the procedure is allowed while the invariant holds; the invariant, and what is known
  -- of the configuration, are kept.
  unfoldable pub Keeps : {A : Type 0} → Proc A → Type 0
  Keeps {A = A} p =
      (s : Ha) (m : M) → C s.config → I m → Safe after Allowed {A = A} Kept Kept (p s) m

  module _ {A : Type 0} where
    pub pure-Keeps : (a : A) → Keeps (pure a)
    unfolding Keeps Safe pure
    pure-Keeps a s m k h = (k, h)

    pub cond-Keeps : (b : Bool) (p q : Proc A) → Keeps p → Keeps q → Keeps (if b then p else q)
    cond-Keeps true p q hp hq = hp
    cond-Keeps false p q hp hq = hq

  pub raise-Keeps : (A : Type 0) (e : Failure) → Keeps {A = A} (raise e)
  unfolding Keeps Safe raise
  raise-Keeps A e s m k h = (k, h)

  pub self-Keeps : Keeps self
  unfolding Keeps Safe self
  self-Keeps s m k h = (k, h)

  pub become-Keeps : (s' : Ha) → C s'.config → Keeps (become s')
  unfolding Keeps Safe become
  become-Keeps s' k s m _ h = (k, h)

  replied-Safe :
      {A : Type 0} (s : Ha) (r : Reply A) (m : M)
      → C s.config
      → I m
      → Safe after Allowed Kept Kept (replied s r) m
  unfolding Safe
  replied-Safe s (answers a) m k h = (k, h)
  replied-Safe s (throws e) m k h = (k, h)

  pub call-Keeps : (c : Call) → Fits after Allowed I c → Keeps (call c)
  unfolding Keeps Safe call
  call-Keeps c f s m k h = ((f m h).0, λ r. replied-Safe s r (after c r m) k ((f m h).1 r))

  pub ask-Keeps : (q : Query) → Fits after Allowed I (asks q) → Keeps (ask q)
  unfolding ask
  ask-Keeps q f = call-Keeps (asks q) f

  pub act-Keeps : (a : Act) → Fits after Allowed I (acts a) → Keeps (act a)
  unfolding act
  act-Keeps a f = call-Keeps (acts a) f

  module _ {A B : Type 0} where
    pub bind-Keeps :
        (p : Proc A) (f : A → Proc B) → Keeps p → ((a : A) → Keeps (f a)) → Keeps (p >>= f)
    unfolding Keeps ◌>>=◌
    bind-Keeps p f hp hf s m k h =
        then-Safe after Allowed Kept Kept Kept (p s) f m (hp s m k h)
          (λ a s' m' i. hf a s' m' i.0 i.1)

    pub then-Keeps : (p : Proc A) (q : Proc B) → Keeps p → Keeps q → Keeps (p >> q)
    unfolding ◌>>◌
    then-Keeps p q hp hq = bind-Keeps p (λ _. q) hp (λ _. hq)

  -- what is known of the configuration goes for the attributes that are read
  pub own-Keeps :
      (A : Type 0) (f : Ha → Proc A) → ((s : Ha) → C s.config → Keeps (f s)) → Keeps (self >>= f)
  unfolding Keeps ◌>>=◌ self
  own-Keeps A f h s m k i = h s k s m k i

  -- a test whose outcome is known
  pub untrue-Keeps :
      (A : Type 0) (b : Bool) (p q : Proc A) → b ≡ false → Keeps q → Keeps (if b then p else q)
  untrue-Keeps A true p q e h = ground arith
  untrue-Keeps A false p q e h = h

  pub msg_or-Keeps : (o : Option String) (p : Proc String) → Keeps p → Keeps (msg_or o p)
  unfolding msg_or
  msg_or-Keeps none p h = h
  msg_or-Keeps (some msg) p h = pure-Keeps msg

  catching-Safe :
      {A : Type 0} (run : Run A) (handle : Failure → Proc A) (m : M)
      → Safe after Allowed Kept Kept run m
      → ((e : Failure) → Keeps (handle e))
      → Safe after Allowed Kept Kept (catching run handle) m
  unfolding Keeps Safe
  catching-Safe (returns a s) handle m h k = h
  catching-Safe (raises e s) handle m h k = k e s m h.0 h.1
  catching-Safe (calls c r) handle m h k =
      (h.0, λ x. catching-Safe (r x) handle (after c x m) (h.1 x) k)

  pub attempt-Keeps :
      (A : Type 0) (p : Proc A) (handle : Failure → Proc A)
      → Keeps p
      → ((e : Failure) → Keeps (handle e))
      → Keeps (attempt p handle)
  unfolding Keeps attempt
  attempt-Keeps A p handle hp hh s m k h = catching-Safe (p s) handle m (hp s m k h) hh

-- The rules of a procedure's proof: `search` takes the procedure apart by them.
pub ruleset keeps_rules = (
  own-Keeps, pure-Keeps, raise-Keeps, cond-Keeps, self-Keeps, become-Keeps, call-Keeps, ask-Keeps,
  act-Keeps, bind-Keeps, then-Keeps, msg_or-Keeps, attempt-Keeps,
)
