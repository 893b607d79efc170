-- ===== src/Rate/Tests.antt =====
-- Examples for src/twsdo.cpp's RateLimit.
use twstools.Base.{ℕ, ◌≤◌, List, [], ◌∷◌, arith}
use twstools.Rate.{sent_in, new_limit, m_rate, can_send_bounded}

abbrev three_calls : List (ℕ × ℕ)
three_calls = (1000, 20) ∷ (1100, 10) ∷ (1600, 5) ∷ []

can_send_bounded_example : sent_in 2 three_calls new_limit ≤ m_rate
can_send_bounded_example =
    can_send_bounded 2 three_calls (omega arith, (omega arith, (omega arith, tt)))
      (omega arith, (omega arith, (omega arith, tt)))
