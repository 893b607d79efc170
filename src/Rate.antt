-- ===== src/Rate.antt =====
-- struct RateLimit of src/twsdo.cpp: how many messages may go to TWS in one interval of half a second.
mod Tests
use twstools.Base.{
  ℕ, ◌+◌, ◌-◌, ◌/◌, ◌≤◌, ◌<◌, ◌==◌, ◌≡◌, refl, subst, inl, inr, ltb, leb, Bool, true, false, ◌&&◌,
  List, [], ◌∷◌, if◌then◌else◌, All, arith, Bool-cases,
}

pub record RateLimit : Type 0 where
  pub m_count : ℕ
  pub m_time : ℕ

-- m_interval and m_rate
abbrev pub m_interval : ℕ
m_interval = 500

abbrev pub m_rate : ℕ
m_rate = 25

unfoldable pub new_limit : RateLimit
new_limit = record { m_count = 0; m_time = 0 }

-- can_send in the interval `now`, which the code computes from the clock.
unfoldable pub can_send_in : ℕ → ℕ → RateLimit → Bool × RateLimit
can_send_in now n r =
    if ltb r.m_time now
    then (true, record { m_count = n; m_time = now })
    else (if ltb m_rate (r.m_count + n)
        then (false, r)
        else (true, record r { m_count = r.m_count + n }))

unfoldable pub can_send : ℕ → ℕ → RateLimit → Bool × RateLimit
can_send msecs = can_send_in (msecs / m_interval)

-- Calls, each with its time and its n: how much of them is allowed in the interval k.
unfoldable pub sent_in : ℕ → List (ℕ × ℕ) → RateLimit → ℕ
sent_in k [] r = 0
sent_in k ((msecs, n) ∷ calls) r =
    let (ok, r') = can_send msecs n r in
    (if ok && (msecs / m_interval == k) then n else 0) + sent_in k calls r'

-- The clock never goes back to an earlier interval.
abbrev pub Rising : ℕ → List (ℕ × ℕ) → Type 0
Rising t [] = Unit
Rising t ((msecs, n) ∷ calls) = (t ≤ msecs / m_interval) × Rising (msecs / m_interval) calls

-- What is free in the interval k.
abbrev free_in : ℕ → RateLimit → ℕ
free_in k r = if ltb k r.m_time then 0 else (if k == r.m_time then m_rate - r.m_count else m_rate)

sent_in_free :
    (k : ℕ) (calls : List (ℕ × ℕ)) (r : RateLimit)
    → Rising r.m_time calls
    → All (λ (c : ℕ × ℕ). c.1 ≤ m_rate) calls
    → r.m_count ≤ m_rate
    → sent_in k calls r ≤ free_in k r
unfolding sent_in can_send can_send_in
sent_in_free k [] r up small fits = omega arith
sent_in_free k ((msecs, n) ∷ calls) r up small fits =
    elim (Bool-cases (ltb r.m_time (msecs / m_interval))) [
      | inl later ↦
          let rest =
            sent_in_free k calls (record { m_count = n; m_time = msecs / m_interval }) up.1 small.1
              small.0 in
          rw later (ground (arith, rest))
      | inr same ↦
          let now : msecs / m_interval ≡ r.m_time = ground (arith, up.0) in
          let up' : Rising r.m_time calls = subst (λ t. Rising t calls) now up.1 in
          elim (Bool-cases (ltb m_rate (r.m_count + n))) [
            | inl full ↦
                let rest = sent_in_free k calls r up' small.1 fits in
                rw (same, full) (ground (arith, rest))
            | inr room ↦
                let rest =
                  sent_in_free k calls (record r { m_count = r.m_count + n }) up' small.1
                    (ground arith) in
                rw (same, room) (ground (arith, rest))
          ]
    ]

-- Whatever calls follow on a new RateLimit, while the clock does not go back to an earlier interval
-- and none asks for more than the limit at once, no interval of half a second lets through more than
-- the limit.
pub can_send_bounded :
    (k : ℕ) (calls : List (ℕ × ℕ))
    → Rising 0 calls
    → All (λ (c : ℕ × ℕ). c.1 ≤ m_rate) calls
    → sent_in k calls new_limit ≤ m_rate
unfolding new_limit
can_send_bounded k calls up small =
    let free = sent_in_free k calls new_limit up small (omega arith) in ground (arith, free)
