-- ===== src/Consumers/Ring.antt =====
-- Positions on a ring of `len` slots: `Gap len j w k` says that `w` stands `k` slots behind `j`.
use eventter.Base.{ℕ, suc, ◌+◌, ◌-◌, ◌%◌, ◌<◌, ◌≤◌, ◌≡◌, ◌≢◌, ◌⊎◌, arith}

pub record Gap (len j w k : ℕ) : Type 0 where
  pub short : k < len
  pub from : j < len
  pub to : w < len
  pub sum : (w ≡ j + k) ⊎ (w + len ≡ j + k)

pub next_cases :
    (len j : ℕ)
    → j < len
    → ((suc j < len) × ((j + 1) % len ≡ suc j)) ⊎ ((suc j ≡ len) × ((j + 1) % len ≡ 0))
next_cases len j h = grind arith

pub next-lt : (len j : ℕ) → j < len → (j + 1) % len < len
next-lt len j h = omega (arith, next_cases len j h)

pub Gap-step : (len j w k : ℕ) → Gap len j w (suc k) → Gap len ((j + 1) % len) w k
Gap-step len j w k g = omega (arith, next_cases len j g.from)

pub Gap-self : (len j : ℕ) → j < len → Gap len j j 0
Gap-self len j h = omega arith

-- From behind a slot the whole rest of the ring lies before it.
pub Gap-around : (len j : ℕ) → j < len → (d : ℕ) × Gap len ((j + 1) % len) j d × (len ≤ suc d)
Gap-around len j h = (len - 1, omega (arith, next_cases len j h), omega arith)

pub Gap-extend : (len j w k : ℕ) → Gap len j w k → suc k < len → Gap len j ((w + 1) % len) (suc k)
Gap-extend len j w k g h = omega (arith, next_cases len w g.to)

pub Gap-zero : (len j w : ℕ) → Gap len j w 0 → j ≡ w
Gap-zero len j w g = omega arith

pub Gap-ne : (len j w k : ℕ) → Gap len j w (suc k) → j ≢ w
Gap-ne len j w k g = omega arith

pub Gap-unique : (len j w k l : ℕ) → Gap len j w k → Gap len j w l → k ≡ l
Gap-unique len j w k l g h = omega arith
