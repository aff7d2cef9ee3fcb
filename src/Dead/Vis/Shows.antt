-- ===== src/Dead/Vis/Shows.antt =====
-- gen_dead.py, vis: an element is seen exactly in its spans, and its rule ends as it starts.
use redisq.Base.{
  ℕ, ◌+◌, ◌≤◌, ◌<◌, ◌≡◌, refl, sym, ap, ◌∙◌, subst, Bool, true, false, ◌&&◌, none, some, List, [],
  ◌∷◌, ◌++◌, ltb, any, if◌then◌else◌, arith,
}
use redisq.Base.Sort.{sorted, any-sorted}
use redisq.Kfu.Keyframes.{IsOrdered, last_of, sorted_ordered}
use redisq.Dead.Swap.{CrossFade}
use redisq.Dead.Swap.Apart.{IsSplit, Loops, is_lit, is_seen}
use redisq.Dead.Vis.{
  Span, by_start, is_open, rise_at, fall_at, span_points, cross_points, vis, AreShown,
}

-- Whether the last span is open at its end.
abbrev any_to_end : List Span → Bool
any_to_end = any (λ p. is_open p.1)

abbrev any_from_start : List Span → Bool
any_from_start = any (λ p. is_open p.0)

-- A time is in a span, or in the fade at its end.
pub in_view : ℕ → ℕ → Span → Bool
in_view fade t (none, none) = true
in_view fade t (none, some e) = ltb t (e + fade)
in_view fade t (some s, none) = ltb s t
in_view fade t (some s, some e) = ltb s t && ltb t (e + fade)

module _ (xf : CrossFade) (peak fade : ℕ) (split : IsSplit xf) where
  points-IsOrdered :
      (on0 : Bool) (t : ℕ) (spans : List Span)
      → AreShown xf fade t spans
      → IsOrdered t (span_points peak fade spans ++ cross_points xf peak on0 (any_to_end spans))
  unfolding span_points cross_points rise_at fall_at is_open
  points-IsOrdered true t [] h = (omega arith, (omega arith, tt))
  points-IsOrdered false t [] h = tt
  points-IsOrdered on0 t ((some s, some e) ∷ spans) h =
      (h.0, (omega arith, (h.1, (omega arith, points-IsOrdered on0 (e + fade) spans h.2))))
  points-IsOrdered true t ((some s, none) ∷ []) h = (h.0, (omega arith, tt))
  points-IsOrdered false t ((some s, none) ∷ []) h = (h.0, (omega arith, (h.1, (omega arith, tt))))
  points-IsOrdered on0 t ((some s, none) ∷ p ∷ spans) h = absurd h
  points-IsOrdered on0 t ((none, e) ∷ spans) h = absurd h

  -- A rule that shows 0 between spans ends at the start state.
  points-last :
      (on0 : Bool) (t : ℕ) (p : ℕ × ℕ) (spans : List Span)
      → AreShown xf fade t spans
      → p.1 ≡ 0
      → (last_of p (span_points peak fade spans ++ cross_points xf peak on0 (any_to_end spans))).1
        ≡ (if on0 then peak else 0)
  unfolding span_points cross_points rise_at fall_at is_open last_of
  points-last true t p [] h z = refl
  points-last false t p [] h z = z
  points-last on0 t p ((some s, some e) ∷ spans) h z =
      points-last on0 (e + fade) (e + fade, 0) spans h.2 refl
  points-last true t p ((some s, none) ∷ []) h z = refl
  points-last false t p ((some s, none) ∷ []) h z = refl
  points-last on0 t p ((some s, none) ∷ q ∷ spans) h z = absurd h
  points-last on0 t p ((none, e) ∷ spans) h z = absurd h

  -- Before its spans start nothing is in view.
  later-view :
      (t u : ℕ) (spans : List Span)
      → AreShown xf fade t spans
      → u ≤ t
      → any (in_view fade u) spans ≡ false
  unfolding in_view
  later-view t u [] h l = refl
  later-view t u ((some s, some e) ∷ spans) h l =
      ground (arith, h, l, later-view (e + fade) u spans h.2)
  later-view t u ((some s, none) ∷ []) h l = ground (arith, h, l)
  later-view t u ((some s, none) ∷ p ∷ spans) h l = absurd h
  later-view t u ((none, e) ∷ spans) h l = absurd h

  points-lit :
      (on0 : Bool) (t a u : ℕ) (spans : List Span)
      → 0 < peak
      → 0 < fade
      → AreShown xf fade t spans
      → u < xf.start
      → is_lit u a 0 (span_points peak fade spans ++ cross_points xf peak on0 (any_to_end spans))
        ≡ any (in_view fade u) spans
  unfolding span_points cross_points rise_at fall_at is_open in_view
  points-lit true t a u [] k f h l = ground (arith, l, split)
  points-lit false t a u [] k f h l = refl
  points-lit on0 t a u ((some s, some e) ∷ spans) k f h l = ground (
    arith,
    k,
    f,
    h,
    l,
    points-lit on0 (e + fade) (e + fade) u spans k f h.2 l,
    later-view (e + fade) u spans h.2,
  )
  points-lit true t a u ((some s, none) ∷ []) k f h l = ground (arith, k, f, h, l, split)
  points-lit false t a u ((some s, none) ∷ []) k f h l = ground (arith, k, f, h, l, split)
  points-lit on0 t a u ((some s, none) ∷ q ∷ spans) k f h l = absurd h
  points-lit on0 t a u ((none, e) ∷ spans) k f h l = absurd h

closed_start :
    (xf : CrossFade) (fade t : ℕ) (spans : List Span)
    → AreShown xf fade t spans
    → any_from_start spans ≡ false
unfolding is_open
closed_start xf fade t [] h = refl
closed_start xf fade t ((some s, some e) ∷ spans) h = closed_start xf fade (e + fade) spans h.2
closed_start xf fade t ((some s, none) ∷ []) h = refl
closed_start xf fade t ((some s, none) ∷ p ∷ spans) h = absurd h
closed_start xf fade t ((none, e) ∷ spans) h = absurd h

-- Spans in order: one that is open at the start comes first, one that is open at the end last.
abbrev pub AreVisible : CrossFade → ℕ → List Span → Type 0
AreVisible xf fade [] = Unit {0}
AreVisible xf fade ((none, none) ∷ []) = Unit {0}
AreVisible xf fade ((none, none) ∷ p ∷ spans) = ⊥
AreVisible xf fade ((none, some e) ∷ spans) = AreShown xf fade (e + fade) spans
AreVisible xf fade ((some s, e) ∷ spans) = AreShown xf fade 0 ((some s, e) ∷ spans)

-- What a rule is to be: it loops, and is seen before the cross-fade just while a span is in view.
abbrev pub Shows : CrossFade → ℕ → List Span → List (ℕ × ℕ) → Type 0
Shows xf fade spans rule =
    Loops rule × ((u : ℕ) → u < xf.start → is_seen u rule ≡ any (in_view fade u) spans)

-- The keyframes in the order in which they are written.
written : CrossFade → ℕ → ℕ → List Span → List (ℕ × ℕ)
written xf peak fade spans =
    (0, if any_from_start spans then peak else 0) ∷ span_points peak fade spans
    ++ cross_points xf peak (any_from_start spans) (any_to_end spans)

vis-written :
    (xf : CrossFade) (peak fade : ℕ) (spans shown : List Span)
    → sorted by_start spans ≡ shown
    → IsOrdered 0 (written xf peak fade shown)
    → vis xf spans peak fade ≡ written xf peak fade shown
unfolding vis written
vis-written xf peak fade spans shown e o =
    let from : any_from_start spans ≡ any_from_start shown =
      sym (any-sorted by_start (λ p. is_open p.0) spans) ∙ ap any_from_start e in
    let to : any_to_end spans ≡ any_to_end shown =
      sym (any-sorted by_start (λ p. is_open p.1) spans) ∙ ap any_to_end e in
    rw (from, to, e) (sorted_ordered 0 _ o)

module _ (xf : CrossFade) (peak fade : ℕ) (split : IsSplit xf) (bright : 0 < peak)
    (slow : 0 < fade) where
  closed-Shows :
      (spans : List Span)
      → AreShown xf fade 0 spans
      → IsOrdered 0 (written xf peak fade spans) × Shows xf fade spans (written xf peak fade spans)
  unfolding written
  closed-Shows spans h =
      let off = closed_start xf fade 0 spans h in
      let ordered = points-IsOrdered xf peak fade split false 0 spans h in
      rw off (
        (omega arith, ordered),
        (
          record {
            first = (0, 0);
            later = span_points peak fade spans ++ cross_points xf peak false (any_to_end spans);
            is_rule = refl;
            starts = refl;
            in_order = (omega arith, ordered);
            ends = points-last xf peak fade split false 0 (0, 0) spans h refl;
          },
          λ u l. ground (arith, points-lit xf peak fade split false 0 0 u spans bright slow h l),
        ),
      )

  open-Shows :
      (e : ℕ) (spans : List Span)
      → AreShown xf fade (e + fade) spans
      → IsOrdered 0 (written xf peak fade ((none, some e) ∷ spans))
        × Shows xf fade ((none, some e) ∷ spans) (written xf peak fade ((none, some e) ∷ spans))
  unfolding written span_points rise_at fall_at is_open in_view last_of
  open-Shows e spans h =
      let ordered = points-IsOrdered xf peak fade split true (e + fade) spans h in
      let rest = span_points peak fade spans ++ cross_points xf peak true (any_to_end spans) in
      (
        (omega arith, (omega arith, (omega arith, ordered))),
        (
          record {
            first = (0, peak);
            later = (e, peak) ∷ (e + fade, 0) ∷ rest;
            is_rule = refl;
            starts = refl;
            in_order = (omega arith, (omega arith, (omega arith, ordered)));
            ends = points-last xf peak fade split true (e + fade) (e + fade, 0) spans h refl;
          },
          λ u l. ground (
            arith,
            bright,
            points-lit xf peak fade split true (e + fade) (e + fade) u spans bright slow h l,
            later-view xf peak fade split (e + fade) u spans h,
          ),
        ),
      )

  always-Shows :
      IsOrdered 0 (written xf peak fade ((none, none) ∷ []))
      × Shows xf fade ((none, none) ∷ []) (written xf peak fade ((none, none) ∷ []))
  unfolding written span_points rise_at fall_at is_open in_view last_of cross_points
  always-Shows = (
    (omega arith, tt),
    (
      record {
        first = (0, peak);
        later = [];
        is_rule = refl;
        starts = refl;
        in_order = (omega arith, tt);
        ends = refl;
      },
      λ u l. ground (arith, bright),
    ),
  )

  written-Shows :
      (spans : List Span)
      → AreVisible xf fade spans
      → IsOrdered 0 (written xf peak fade spans) × Shows xf fade spans (written xf peak fade spans)
  written-Shows [] h = closed-Shows [] (omega arith)
  written-Shows ((none, none) ∷ []) h = always-Shows
  written-Shows ((none, none) ∷ p ∷ spans) h = absurd h
  written-Shows ((none, some e) ∷ spans) h = open-Shows e spans h
  written-Shows ((some s, e) ∷ spans) h = closed-Shows ((some s, e) ∷ spans) h

-- Take spans that come one after another, each as long as its fade or longer, of which only the first may be open
-- at its start and only the last at its end, all before the cross-fade. Before the cross-fade the element is
-- seen just while one of them lasts or fades out, and the rule is in order and ends with what it starts with.
pub vis-Shows :
    (xf : CrossFade) (peak fade : ℕ) (spans shown : List Span)
    → IsSplit xf
    → 0 < peak
    → 0 < fade
    → sorted by_start spans ≡ shown
    → AreVisible xf fade shown
    → Shows xf fade shown (vis xf spans peak fade)
vis-Shows xf peak fade spans shown split bright slow e h =
    let (o, s) = written-Shows xf peak fade split bright slow shown h in
    subst (Shows xf fade shown) (sym (vis-written xf peak fade spans shown e o)) s
