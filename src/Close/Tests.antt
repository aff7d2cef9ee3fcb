-- ===== src/Close/Tests.antt =====
-- gen_close.py's collapse on a short run of states.
use redisq.Kfu.Keyframes.{IsOrdered, last_of}
use redisq.Close.Chip.{Look, look, chip, chip_loops}
use redisq.Base.{
  ℕ, Bool, List, true, false, arith, ◌≡◌, ◌++◌, some, [], ◌∷◌, ◌≤◌, ◌+◌, all, leb, refl,
}
use redisq.Close.Collapse.{collapse_run, AreShown, last_state}
use redisq.Close.Collapse.Lasting.{collapse_keeps_lasting}

-- The state at 1 s lasts, those at 2 s and 2.06 s do not.
collapse_keeps_lasting_example :
    let out =
      collapse_run 150 [] ((0, 0) ∷ [] ++ ((1000, 1) ∷ (2000, 2) ∷ (2060, 3) ∷ (2120, 4) ∷ [])) in
    AreShown 150 out
    × (last_state out ≡ some (last_of {V = ℕ} (1000, 1) ((2000, 2) ∷ (2060, 3) ∷ (2120, 4) ∷ [])).1)
    × (later earlier : List (ℕ × ℕ)) × (p : ℕ × ℕ) × (out ≡ later ++ (p ∷ earlier))
    × (p.1 ≡ 1)
    × (p.0 ≤ 1000)
    × (all (λ d. leb (1000 + 150) d.0) later ≡ true)
    × (rest : List (ℕ × ℕ)) × (out ≡ rest ++ ((0, 0) ∷ []))
collapse_keeps_lasting_example =
    collapse_keeps_lasting 150 0 (1000, 1) [] ((2000, 2) ∷ (2060, 3) ∷ (2120, 4) ∷ []) refl refl

-- Consumer 1's chip comes in and goes out again, and comes back for good.
abbrev changes : List (ℕ × Bool)
changes = (24000, true) ∷ (36200, false) ∷ (75000, true) ∷ []

chip_loops_example :
    IsOrdered 0 (chip changes false 80000)
    × (pts : List (ℕ × Look)) × (chip changes false 80000 ≡ (0, look false) ∷ pts)
    × ((last_of (0, look false) pts).1 ≡ look false)
chip_loops_example =
    chip_loops changes false 80000 (omega arith, (omega arith, (omega arith, omega arith)))
