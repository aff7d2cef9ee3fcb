-- ===== src/Kfu/Tests.antt =====
-- kfu.py's helpers on small inputs.
use redisq.Base.{
  false, zero, suc, ℕ, ◌<◌, ◌≡◌, refl, ◌>>=◌, true, none, some, List, [], ◌∷◌, ◌==◌, if◌then◌else◌,
  elem, get_elem?, ok, arith,
}
use redisq.Base.Sort.{sorted}
use redisq.Kfu.Spans.{merge, covers, AreApart, flash, merge_exact}
use redisq.Kfu.Spans.Lit.{is_up, is_lit, flash_shows}
use redisq.Kfu.Reading.{shown, IsAt}
use redisq.Kfu.Pulses.{pulses, AreSpaced, stands_for, pulses_coalesce}
use redisq.Kfu.States.{states, state_at, states_show_one}
use redisq.Kfu.Bar.{BarSpan, bar, bar_le, is_ok, no_overlap, bar_accepts}
use redisq.Kfu.Pool.{Pool, IsValid, take, release, lives, is_open, is_open_last}
use redisq.Kfu.Pool.Take.{Gives, take-Gives, take-release}

-- Two workers of at most three: 0 is idle, 1 is at work.
abbrev workers : Pool
workers = record {
  limit = 3;
  idle = 0 ∷ [];
  alive = ((0, none) ∷ []) ∷ ((0, some 500) ∷ (900, none) ∷ []) ∷ [] ∷ [];
}

workers_open : (w : ℕ) → elem w workers.idle ≡ true → is_open (lives workers w) ≡ true
unfolding is_open is_open_last
workers_open zero h = refl
workers_open (suc w) h = absurd (ground arith)

workers-IsValid : IsValid workers
workers-IsValid = record { open_idle = workers_open; once = λ w. ground arith }

take-Gives_example : Gives workers (take workers 1000)
take-Gives_example = take-Gives workers 1000 workers-IsValid

take-release_example : (release workers 1 1200 true 350 >>= λ q. take q 1300) ≡ ok (workers, 1)
take-release_example = take-release workers 1 1200 1300 350

-- Three spans, of which two overlap.
abbrev spans : List (ℕ × ℕ)
spans = (3000, 3500) ∷ (1000, 2000) ∷ (1500, 2500) ∷ []

merge_exact_example :
    AreApart 0 (merge 0 spans)
    × ((t : ℕ) → covers 0 t spans ≡ true → covers 0 t (merge 0 spans) ≡ true)
    × ((t : ℕ) → covers 0 t (merge 0 spans) ≡ true → covers 0 t spans ≡ true)
merge_exact_example = merge_exact 0 spans

flash_shows_example :
    (is_up 120 1800 (merge 370 spans) ≡ true → IsAt 85 (shown 1800 (flash spans 85 120 250)))
    × (is_lit 250 1800 (merge 370 spans) ≡ false → IsAt 0 (shown 1800 (flash spans 85 120 250)))
flash_shows_example =
    flash_shows spans 85 120 250 1800 (omega arith) (omega arith)
      (omega arith, (omega arith, (omega arith, tt)))

pulses_coalesce_example :
    AreSpaced 600 0 (pulses (700 ∷ 200 ∷ 1400 ∷ []) 600)
    × ((x : ℕ)
        → elem x (pulses (700 ∷ 200 ∷ 1400 ∷ []) 600) ≡ true
        → elem x (700 ∷ 200 ∷ 1400 ∷ []) ≡ true)
    × ((x : ℕ)
        → elem x (700 ∷ 200 ∷ 1400 ∷ []) ≡ true
        → stands_for 600 x (pulses (700 ∷ 200 ∷ 1400 ∷ []) 600) ≡ true)
pulses_coalesce_example = pulses_coalesce (700 ∷ 200 ∷ 1400 ∷ []) 600 (omega arith) (omega arith)

-- A text that changes at 1 s and back at 2 s, read at 1.5 s.
states_show_one_example :
    (rules : List (List (ℕ × ℕ))) × (states ((1000, 1) ∷ (0, 0) ∷ (2000, 0) ∷ []) 2 80 ≡ ok rules)
    × ((k : ℕ)
        → k < 2
        → (rule : List (ℕ × ℕ)) × (get_elem? rules k ≡ some rule)
          × IsAt
              (if state_at 1500 ((0, 0) ∷ (1000, 1) ∷ (2000, 0) ∷ []) == k then 1 else 0)
              (shown 1500 rule))
unfolding sorted
states_show_one_example =
    states_show_one ((1000, 1) ∷ (0, 0) ∷ (2000, 0) ∷ []) ((1000, 1) ∷ (2000, 0) ∷ []) 2 80 0 1500
      refl (omega arith, (omega arith, tt)) refl

abbrev loads : List BarSpan
loads =
    record { start = 2600; stop = 3000; part = none }
    ∷ record { start = 1000; stop = 2500; part = some 40 }
    ∷ []

bar_accepts_example : is_ok (bar loads) ≡ no_overlap (sorted bar_le loads)
bar_accepts_example = bar_accepts loads
