-- ===== src/Dead/Tests.antt =====
-- gen_dead.py's escaping of a label.
use redisq.Base.{◌≡◌, false, [], ◌∷◌, elem}
use redisq.Dead.Escape.{esc, escape_each, esc_each_once}

-- "a<&b".
esc_each_once_example :
    (esc (97 ∷ 60 ∷ 38 ∷ 98 ∷ []) ≡ escape_each (97 ∷ 60 ∷ 38 ∷ 98 ∷ []))
    × (elem 60 (esc (97 ∷ 60 ∷ 38 ∷ 98 ∷ [])) ≡ false)
    × (elem 62 (esc (97 ∷ 60 ∷ 38 ∷ 98 ∷ [])) ≡ false)
esc_each_once_example = esc_each_once (97 ∷ 60 ∷ 38 ∷ 98 ∷ [])
