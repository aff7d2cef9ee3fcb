-- ===== src/Kfu/Rows.antt =====
-- assets/diagrams/gen/kfu.py, Pool.rows: the opacity of each worker's row, in hundredths, over its lifetimes.
-- Times are whole milliseconds; the fade in before a start in the first tenth of a second begins below 0.
use redisq.Base.{ℕ, ◌+◌, ◌==◌, Option, none, some, List, [], ◌∷◌, ◌++◌, map, if◌then◌else◌, ltb}
use redisq.Base.Int.{ℤ, pos, sub_ℕ, leb_ℤ}
use redisq.Base.Sort.{sorted}
use redisq.Kfu.Pool.{Pool, Lives}

fade_in : ℕ → ℕ → List (ℤ × ℕ)
fade_in ghost s = if ltb 0 s then (sub_ℕ s 100, ghost) ∷ (pos (s + 200), 100) ∷ [] else []

-- `if e`: an end at 0 counts as none.
fade_out : ℕ → Option ℕ → List (ℤ × ℕ)
fade_out ghost none = []
fade_out ghost (some e) = if ltb 0 e then (pos e, 100) ∷ (pos (e + 400), ghost) ∷ [] else []

row_points : ℕ → Lives → List (ℤ × ℕ)
unfolding fade_in fade_out
row_points ghost [] = []
row_points ghost ((s, e) ∷ lives) = fade_in ghost s ++ fade_out ghost e ++ row_points ghost lives

first_opacity : ℕ → Lives → ℕ
first_opacity ghost [] = ghost
first_opacity ghost ((s, e) ∷ lives) = if s == 0 then 100 else ghost

row : ℕ → Lives → List (ℤ × ℕ)
unfolding row_points first_opacity
row ghost lives =
    sorted (λ p q. leb_ℤ p.0 q.0) ((pos 0, first_opacity ghost lives) ∷ row_points ghost lives)

-- The rule of worker `w` is the w-th.
pub rows : Pool → ℕ → List (List (ℤ × ℕ))
unfolding row
rows p ghost = map (row ghost) p.alive
