-- ===== src/Dcs/Raft/Retry.antt =====
-- `KVStoreTTL.retry` of .patroni/patroni/dcs/raft.py: a replicated call is submitted until it is
-- answered or its deadline is over. pysyncobj calls back with the reason of a failure; an attempt is
-- that reason, with what the clock reads when it has been waited for.
use otus_hightload.Prelude.{
  inr, inl, Bool-cases, ℕ, ◌+◌, ◌-◌, ◌≤◌, ◌<◌, leb, Bool, true, false, Option, none, some, List, [],
  ◌∷◌, ◌≡◌, refl, arith, if◌then◌else◌, length,
}

pub data Reason {ℓ} (A : Type ℓ) : Type ℓ where
  success : A → Reason A
  request_denied : Reason A
  other_reason : Reason A

-- What `retry` comes to: its result, `False`, `RaftError('timeout')`; or it waits for more
-- attempts than it is given.
pub data Reply {ℓ} (A : Type ℓ) : Type ℓ where
  result : A → Reply A
  denied : Reply A
  raft_error : Reply A
  waits : Reply A

-- `timeout or self.__retry_timeout`, from the clock; none is a deadline of 0, which is no deadline
unfoldable pub deadline_of : ℕ → ℕ → ℕ → Option ℕ
deadline_of timeout retry_timeout now =
    if leb 1 timeout
    then some (now + timeout)
    else if leb 1 retry_timeout
    then some (now + retry_timeout)
    else none

is_over : Option ℕ → ℕ → Bool
is_over none now = false
is_over (some deadline) now = leb deadline now

module _ {ℓ} {A : Type ℓ} where
  unfoldable pub retry : Option ℕ → List (Reason A × ℕ) → Reply A
  unfolding is_over
  retry deadline [] = waits
  retry deadline ((success a, now) ∷ rest) = result a
  retry deadline ((request_denied, now) ∷ rest) = denied
  retry deadline ((other_reason, now) ∷ rest) =
      let later = retry deadline rest in if is_over deadline now then raft_error else later

  abbrev pub is_waiting : Reply A → Bool
  is_waiting waits = true
  is_waiting _ = false

  -- Attempts whose times are at least the second of sleep apart.
  abbrev pub IsPaced : ℕ → List (Reason A × ℕ) → Type 0
  IsPaced now [] = Unit
  IsPaced now ((r, at) ∷ rest) = (now ≤ at) × IsPaced (at + 1) rest

  -- With a deadline, a call ends after at most as many attempts as there are seconds to the deadline, and one
  -- more: it has a result, is denied or times out, whatever the answers are.
  pub retry_ends :
      (deadline now : ℕ) (attempts : List (Reason A × ℕ))
      → IsPaced now attempts
      → deadline - now < length attempts
      → is_waiting (retry (some deadline) attempts) ≡ false
  unfolding retry is_over
  retry_ends deadline now [] paced enough = ground arith
  retry_ends deadline now ((success a, at) ∷ rest) paced enough = refl
  retry_ends deadline now ((request_denied, at) ∷ rest) paced enough = refl
  retry_ends deadline now ((other_reason, at) ∷ rest) paced enough =
      elim (Bool-cases (leb deadline at)) [
        | inl over ↦ rw over refl
        | inr early ↦
            rw early (retry_ends deadline (at + 1) rest paced.1 (ground (arith, early, enough)))
      ]
