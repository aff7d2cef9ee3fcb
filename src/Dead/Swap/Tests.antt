-- ===== src/Dead/Swap/Tests.antt =====
-- gen_dead.py's swap on the caption of the consumer that stops: at 1 s, and back over the cross-fade from 17.789 s.
use redisq.Base.{
  ℕ, ◌≡◌, ◌≢◌, ◌≤◌, refl, true, false, none, some, List, [], ◌∷◌, ok, arith, get_elem?,
}
use redisq.Dead.Swap.{CrossFade, Change, swap}
use redisq.Dead.Swap.Apart.{Loops, is_seen, swap_cross_fades}

abbrev fading : CrossFade
fading = record { start = 17789; middle = 18139; end = 18489 }

abbrev changes : List Change
changes =
    record { time = 0; state = 0; fade = none }
    ∷ record { time = 1000; state = 1; fade = none }
    ∷ record { time = 17789; state = 0; fade = some 700 }
    ∷ []

swap-rules :
    swap fading changes 2 150
    ≡ ok (
        ((0, 1) ∷ (1000, 1) ∷ (1150, 0) ∷ (18139, 0) ∷ (18489, 1) ∷ [])
        ∷ ((0, 0) ∷ (1000, 0) ∷ (1150, 1) ∷ (17789, 1) ∷ (18139, 0) ∷ [])
        ∷ [])
unfolding swap redisq.Base.Sort.sorted
swap-rules = refl

swap_cross_fades_example :
    (rules : List (List (ℕ × ℕ))) × (swap fading changes 2 150 ≡ ok rules)
    × ((k : ℕ) (rule : List (ℕ × ℕ)) → get_elem? rules k ≡ some rule → Loops rule)
    × ((j k u : ℕ) (rule other : List (ℕ × ℕ))
        → get_elem? rules j ≡ some rule
        → get_elem? rules k ≡ some other
        → j ≢ k
        → 17789 ≤ u
        → is_seen u rule ≡ true
        → is_seen u other ≡ false)
unfolding redisq.Base.Sort.sorted
swap_cross_fades_example =
    swap_cross_fades fading 150 2 changes (record { time = 0; state = 0; fade = none })
      (record { time = 1000; state = 1; fade = none }
        ∷ record { time = 17789; state = 0; fade = some 700 }
        ∷ [])
      (omega arith) refl refl (omega arith)
