-- ===== src/Wake/Pulse/Tests.antt =====
-- A run of gen_wake.py's pulse over a loop of seven seconds.
use redisq.Base.{ℕ, ◌*◌, ◌≡◌, List, [], ◌∷◌, ◌++◌, ok, arith}
use redisq.Wake.Pulse.{Point, pulse, pulse_has_no_seam}

pulse_has_no_seam_example :
    (opacity scale : ℕ) × (between : List Point) × (pulse (1000 * 7) 300
      ≡ ok ((0, opacity, scale) ∷ between ++ (1000 * 7, opacity, scale) ∷ []))
pulse_has_no_seam_example = pulse_has_no_seam 7 300 (omega arith)
