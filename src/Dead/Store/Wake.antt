-- ===== src/Dead/Store/Wake.antt =====
-- assets/diagrams/gen/gen_dead.py, Redis.wake: whom a wake reaches, whatever SPOP picks.
use redisq.Base.{
  ℕ, ◌≤◌, ◌≡◌, refl, ◌⊎◌, true, false, ◌&&◌, List, [], ◌∷◌, ◌++◌, max, arith, ltb, elem,
  elem-discard, elem-append, discard, length, length-append,
}
use redisq.Dead.Store.{Redis, subscribers, wake, wake_loop}

subscribers_idle :
    (r : Redis) (idle : List ℕ) (x : ℕ) → subscribers (record r { idle = idle }) x ≡ subscribers r x
unfolding subscribers
subscribers_idle r idle x = refl

-- What one call of the loop does for member `x`.
record Wakes (n : ℕ) (order : List ℕ) (r : Redis) (woken : List ℕ) (x : ℕ) : Type 0 where
  few : length (wake_loop order n r woken).1 ≤ max n (length woken)
  kept : elem x woken ≡ true → elem x (wake_loop order n r woken).1 ≡ true
  grown : length woken ≤ length (wake_loop order n r woken).1
  from_idle :
      elem x (wake_loop order n r woken).1 ≡ true
      → (elem x woken ≡ true) ⊎ ((elem x r.idle ≡ true) × (ltb 0 (subscribers r x) ≡ true))
  shrunk : elem x (wake_loop order n r woken).0.idle ≡ true → elem x r.idle ≡ true
  left :
      (elem x woken && elem x r.idle) ≡ false
      → (elem x (wake_loop order n r woken).1 && elem x (wake_loop order n r woken).0.idle) ≡ false
  enough :
      elem x r.idle ≡ true
      → elem x order ≡ true
      → ltb 0 (subscribers r x) ≡ true
      → (n ≤ length (wake_loop order n r woken).1) ⊎ (elem x (wake_loop order n r woken).1 ≡ true)

loop-Wakes : (n : ℕ) (order : List ℕ) (r : Redis) (woken : List ℕ) (x : ℕ) → Wakes n order r woken x
unfolding wake_loop
loop-Wakes n [] r woken x = ground arith
loop-Wakes n (m ∷ order) r woken x = ground (
  arith,
  loop-Wakes n order r woken x,
  loop-Wakes n order (record r { idle = discard m r.idle }) woken x,
  loop-Wakes n order (record r { idle = discard m r.idle }) (woken ++ m ∷ []) x,
  subscribers_idle r (discard m r.idle) x,
  elem-discard x m r.idle,
  elem-append x woken (m ∷ []),
  length-append woken (m ∷ []),
)

-- A wake of `n` reaches at most `n` members; each was in the idle set with a subscriber, and is out of
-- the set afterwards; nobody joins the set.
pub wake_reaches :
    (r : Redis) (n : ℕ) (order : List ℕ)
    → (length (wake r n order).1 ≤ n)
      × ((x : ℕ)
          → elem x (wake r n order).1 ≡ true
          → (elem x r.idle ≡ true)
            × (ltb 0 (subscribers r x) ≡ true)
            × (elem x (wake r n order).0.idle ≡ false))
      × ((x : ℕ) → elem x (wake r n order).0.idle ≡ true → elem x r.idle ≡ true)
unfolding wake
wake_reaches r n order = (
  omega (arith, (loop-Wakes n order r [] 0).few),
  λ x h. ground (arith, loop-Wakes n order r [] x),
  λ x h. (loop-Wakes n order r [] x).shrunk h,
)

-- If SPOP's picks name every idle member, in any order, a wake of `n` gives up on nobody: either `n` are
-- woken or the idle member `x` with a subscriber is among the woken.
pub wake_enough :
    (r : Redis) (n : ℕ) (order : List ℕ) (x : ℕ)
    → ((y : ℕ) → elem y r.idle ≡ true → elem y order ≡ true)
    → elem x r.idle ≡ true
    → ltb 0 (subscribers r x) ≡ true
    → (n ≤ length (wake r n order).1) ⊎ (elem x (wake r n order).1 ≡ true)
unfolding wake
wake_enough r n order x covers idle subscribed =
    (loop-Wakes n order r [] x).enough idle (covers x idle) subscribed
