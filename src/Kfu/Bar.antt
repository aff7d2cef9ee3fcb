-- ===== src/Kfu/Bar.antt =====
-- assets/diagrams/gen/kfu.py, bar: a bar that fills over each span. Times are whole milliseconds; a
-- keyframe sets the opacity (1 or 0) and the scale, in hundredths.
use redisq.Base.{
  ℕ, ◌+◌, ◌≡◌, refl, Bool, true, false, ◌&&◌, ◌||◌, Option, none, some, List, [], ◌∷◌, ◌++◌, max,
  arith, ltb, leb, ◌==◌, if◌then◌else◌, Result, ok, raise, ◌>>=◌, ◌>>◌, assert,
}
use redisq.Base.Sort.{sorted}

-- A span, with the fraction at which it stops if one is given.
pub record BarSpan : Type 0 where
  pub start : ℕ
  pub stop : ℕ
  pub part : Option ℕ

-- Tuples are compared item by item; the shorter one comes first.
part_le : Option ℕ → Option ℕ → Bool
part_le none q = true
part_le (some a) none = false
part_le (some a) (some b) = leb a b

unfoldable pub bar_le : BarSpan → BarSpan → Bool
unfolding part_le
bar_le p q =
    ltb p.start q.start
    || p.start == q.start && (ltb p.stop q.stop || p.stop == q.stop && part_le p.part q.part)

fraction : Option ℕ → ℕ
fraction none = 100
fraction (some f) = f

abbrev Frame : Type 0
Frame = ℕ × ℕ × ℕ

fill : ℕ → ℕ → ℕ → List Frame
fill s e f = (s, 1, 0) ∷ (e, 1, f) ∷ []

fade_out : ℕ → ℕ → List Frame
fade_out e f = (e + 300, 0, f) ∷ (e + 310, 1, 0) ∷ []

-- The loop of `bar`: `s` is the start of the span, as the round before it may have moved it; `e` and
-- `f` are its end and fraction.
bar_run : ℕ → ℕ → ℕ → List BarSpan → Result (List Frame)
unfolding fill fade_out fraction
bar_run s e f [] = ok (fill s e f ++ fade_out e f)
bar_run s e f (q ∷ spans) =
    let faded = bar_run q.start q.stop (fraction q.part) spans in
    let restarted = bar_run (max q.start (e + 10)) q.stop (fraction q.part) spans in
    if leb (e + 310) q.start
    then (faded >>= λ r. ok (fill s e f ++ (fade_out e f ++ r)))
    else (assert (leb e q.start) >> (restarted >>= λ r. ok (fill s e f ++ r)))

bar_sorted : List BarSpan → Result (List Frame)
unfolding bar_run
bar_sorted [] = ok []
bar_sorted (p ∷ spans) = bar_run p.start p.stop (fraction p.part) spans

abbrev frame_le : Frame → Frame → Bool
frame_le p q = leb p.0 q.0

unfoldable pub bar : List BarSpan → Result (List Frame)
unfolding bar_sorted
bar spans = do r ← bar_sorted (sorted bar_le spans); ok (sorted frame_le ((0, 1, 0) ∷ r))

-- No span starts before the one before it ends.
abbrev pub no_overlap_from : ℕ → List BarSpan → Bool
no_overlap_from e [] = true
no_overlap_from e (q ∷ spans) = leb e q.start && no_overlap_from q.stop spans

abbrev pub no_overlap : List BarSpan → Bool
no_overlap [] = true
no_overlap (p ∷ spans) = no_overlap_from p.stop spans

abbrev pub is_ok {ℓ} : {A : Type ℓ} → Result A → Bool
is_ok (ok a) = true
is_ok (raise e) = false

bar_run_ok :
    (s e f : ℕ) (spans : List BarSpan) → is_ok (bar_run s e f spans) ≡ no_overlap_from e spans
unfolding bar_run
bar_run_ok s e f [] = refl
bar_run_ok s e f (q ∷ spans) = ground (
  arith,
  bar_run_ok q.start q.stop (fraction q.part) spans,
  bar_run_ok (max q.start (e + 10)) q.stop (fraction q.part) spans,
)

bar_sorted_ok : (spans : List BarSpan) → is_ok (bar_sorted spans) ≡ no_overlap spans
unfolding bar_sorted
bar_sorted_ok [] = refl
bar_sorted_ok (p ∷ spans) = bar_run_ok p.start p.stop (fraction p.part) spans

-- `bar` returns keyframes exactly when, in order, no span starts before the one before it ends: a
-- restart during the fade of 0.31 s never makes the assertion fail.
pub bar_accepts : (spans : List BarSpan) → is_ok (bar spans) ≡ no_overlap (sorted bar_le spans)
unfolding bar
bar_accepts spans = ground (arith, bar_sorted_ok (sorted bar_le spans))
