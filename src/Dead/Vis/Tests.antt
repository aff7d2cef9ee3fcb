-- ===== src/Dead/Vis/Tests.antt =====
-- gen_dead.py's vis for a subscription that is there from the start until 1 s, and one that is there all along.
use redisq.Base.{◌≡◌, refl, none, some, List, [], ◌∷◌, arith}
use redisq.Dead.Swap.{CrossFade}
use redisq.Dead.Vis.{vis}
use redisq.Dead.Vis.Shows.{Shows, vis-Shows}

abbrev fading : CrossFade
fading = record { start = 17789; middle = 18139; end = 18489 }

vis-until :
    vis fading ((none, some 1000) ∷ []) 100 150
    ≡ (0, 100) ∷ (1000, 100) ∷ (1150, 0) ∷ (18139, 0) ∷ (18489, 100) ∷ []
unfolding vis redisq.Base.Sort.sorted
vis-until = refl

vis-Shows_example :
    Shows fading 150
      ((none, some 1000) ∷ (some 2000, none) ∷ [])
      (vis fading ((some 2000, none) ∷ (none, some 1000) ∷ []) 100 150)
unfolding redisq.Base.Sort.sorted redisq.Dead.Vis.by_start
vis-Shows_example =
    vis-Shows fading 100 150 ((some 2000, none) ∷ (none, some 1000) ∷ [])
      ((none, some 1000) ∷ (some 2000, none) ∷ []) (omega arith) (omega arith) (omega arith) refl
      (omega arith)
