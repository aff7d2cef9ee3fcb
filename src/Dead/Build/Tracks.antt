-- ===== src/Dead/Build/Tracks.antt =====
-- gen_dead.py, build: the tracks of a row whose moments stand in order pass the assertion on the loop's seam.
use redisq.Base.{ℕ, ◌+◌, ◌≤◌, ◌≡◌, Bool, [], ◌∷◌, if◌then◌else◌}
use redisq.Base.Dict
use redisq.Dead.Store.Simulate.Facts.{Facts}
use redisq.Dead.Swap.{CrossFade}
use redisq.Dead.Swap.Apart.{IsSplit}
use redisq.Dead.Row.{Look, place, Moments}

-- The moments of a row as they follow one another; row B goes silent for 2.4 s after the first check.
abbrev pub IsInTime : Bool → CrossFade → Moments → Type 0
IsInTime row_a xf m =
    IsSplit xf
    × (m.kill + 400 ≤ xf.start)
    × (m.c2_sweep + 150 ≤ m.skip)
    × (m.skip + 150 ≤ m.check)
    × (m.check + (if row_a then 150 else 2550) ≤ m.reap)
    × (m.reap + 150 ≤ m.wake)
    × (m.wake ≤ m.last_ack)
    × (m.last_ack + 350 ≤ xf.start)

-- A place, and how much of it is seen.
abbrev spot : ℕ → ℕ → ℕ → Look
spot x y o = record { opacity = o; transform = place x y }

-- What the facts and the map make of the jobs: job 2 first, and every part of the way over before the next one.
pub record AreMoved (xf : CrossFade) (f : Facts) (m : Moments) (p₁ p₂ a₁ a₂ : ℕ) : Type 0 where
  pub order : f.order ≡ 2 ∷ 1 ∷ []
  pub acks : m.acks ≡ (a₁, 2) ∷ (a₂, 1) ∷ []
  pub requeued : m.reap + 500 ≤ p₁
  pub apart : p₁ + 450 ≤ p₂
  pub first_run : p₁ + 600 ≤ a₁
  pub second_run : p₂ + 400 ≤ a₂
  pub in_turn : a₁ ≤ a₂
  pub over : a₂ + 300 ≤ xf.middle
