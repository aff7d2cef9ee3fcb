-- ===== src/Wake/Chips.antt =====
-- assets/diagrams/gen/gen_wake.py, build: the tracks of the chips in the idle set, with their labels and outlines, and
-- the types of a track and of its rule. Times are tenths of a millisecond, those of `at` and of `pulse` whole
-- milliseconds.
use redisq.Base.{
  ℕ, ◌+◌, ◌-◌, min, Bool, ◌&&◌, Option, none, some, List, [], ◌∷◌, ◌++◌, map, ltb, leb, ◌==◌,
  if◌then◌else◌, select, Result, ok, raise, ◌>>=◌, ◌>>◌, assert, or_raise, value_error, key_error,
}
use redisq.Base.Sort.{sorted}
use redisq.Kfu.Keyframes.{by_time}
use redisq.Kfu.Walk.{at}
use redisq.Kfu.Walk
use redisq.Kfu.Spans.{Span, flash}
use redisq.Wake.Simulate.{Sim, Why, spop, len, nudged, pop_miss}
use redisq.Wake.Pulse
use redisq.Wake.Pulse.{pulse}

-- The texts beside a chip, and the colours of its outline.
pub data Label : Type 0 where
  took_out srem sadd found_none stays_out : Label

pub data Colour : Type 0 where
  pink purple fg : Colour

pub data Track : Type 0 where
  item wake_text pop_dot wake_line wake_dot chip glow ring poke : ℕ → Track
  enq_glow : Track
  chip_label status : ℕ → ℕ → Track
  outline : ℕ → Colour → Track

-- A rule of places, of opacities in hundredths (of states: 1 or 0), or of a pulse.
pub data Rule : Type 0 where
  moved : List Walk.Point → Rule
  faded : List (ℕ × ℕ) → Rule
  pulsed : List Pulse.Point → Rule

abbrev pub Rules : Type 0
Rules = List (Track × Rule)

-- `kf`.
unfoldable pub placed : List Walk.Point → Rule
placed pts = moved (sorted (λ p q. leb p.time q.time) pts)

unfoldable pub each {ℓ} : {A : Type ℓ} → (A → Result Rules) → List A → Result Rules
each draw [] = ok []
each draw (x ∷ xs) = do rules ← draw x; rest ← each draw xs; ok (rules ++ rest)

-- The chip of a consumer, in and out of the idle set; the result is its rule and its last opacity.
chip_points : ℕ → List (ℕ × Bool × Why) → List (ℕ × ℕ) × ℕ
chip_points cur [] = ([], cur)
chip_points cur ((t, joined, why) ∷ events) =
    let new = if joined then 100 else 0 in
    let rest = chip_points new events in ((t, cur) ∷ (t + 2000, new) ∷ rest.0, rest.1)

-- LABEL.
label : Bool → Why → Result (Label × Colour)
label joined spop = ok (took_out, pink)
label joined nudged = ok (if joined then sadd else srem, purple)
label joined len = ok (found_none, fg)
label joined pop_miss = raise key_error

label_code : Label → ℕ
label_code took_out = 0
label_code srem = 1
label_code sadd = 2
label_code found_none = 3
label_code stays_out = 4

colour_code : Colour → ℕ
colour_code pink = 0
colour_code purple = 1
colour_code fg = 2

-- `d.setdefault(k, []).append(span)`.
append_to {ℓ} : {K : Type ℓ} → (K → ℕ) → K → Span → List (K × List Span) → List (K × List Span)
append_to code k span [] = (k, span ∷ []) ∷ []
append_to code k span ((j, spans) ∷ d) =
    let rest = append_to code k span d in
    if code j == code k then (j, spans ++ span ∷ []) ∷ d else (j, spans) ∷ rest

minimum : List ℕ → Option ℕ
minimum [] = none
minimum (t ∷ ts) = some (elim (minimum ts) [ none ↦ t | some u ↦ min t u ])

-- The labels of a consumer's chip and its outlines, by text and by colour.
pub record Shown : Type 0 where
  pub labels : List (Label × List Span)
  pub outlines : List (Colour × List Span)

show : Label → Colour → ℕ → ℕ → Shown → Shown
unfolding append_to label_code colour_code
show l colour t until s = record {
  labels = append_to label_code l (t, until) s.labels;
  outlines = append_to colour_code colour (t, t + 3500) s.outlines;
}

show_events : List ℕ → List (ℕ × Bool × Why) → Shown → Result Shown
unfolding label show minimum
show_events starts [] s = ok s
show_events starts ((t, joined, why) ∷ events) s = do
  (l, colour) ← label joined why
  let next : ℕ = elim (minimum (select (λ u. ltb t u) starts)) [ none ↦ t + 90000 | some u ↦ u ]
  show_events starts events (show l colour t (min (t + 11000) (next - 3000)) s)

-- A nudge that leaves the busy consumer out: the label stays until it rejoins.
show_stays : List (ℕ × Bool × Why) → List ℕ → Shown → Result Shown
unfolding show minimum
show_stays events [] s = ok s
show_stays events (t ∷ stays) s = do
  back ← or_raise value_error (minimum (map (λ e. e.0) (select (λ e. ltb t e.0 && e.1) events)))
  show_stays events stays (show stays_out purple t (back - 3000) s)

label_rules : ℕ → ℕ → List (Label × List Span) → Rules
label_rules c k [] = []
label_rules c k ((l, spans) ∷ labels) =
    (chip_label c k, faded (flash spans 100 1200 2500)) ∷ label_rules c (k + 1) labels

unfoldable pub draw_chip : Sim → ℕ → Result Rules
unfolding chip_points show_events show_stays label_rules
draw_chip s c = do
  let events = map (λ m. (m.0, m.2, m.3)) (select (λ m. m.1 == c) s.member_log)
  let pts = chip_points 100 events
  assert (pts.1 == 100)
  let stays = map (λ x. x.0) (select (λ x. x.1 == c) s.stay_log)
  let starts = map (λ e. e.0) events ++ stays
  by_event ← show_events starts events (record { labels = []; outlines = [] })
  shown ← show_stays events stays by_event
  ok (
      (chip c, faded (sorted by_time ((0, 100) ∷ pts.0))) ∷ label_rules c 0 shown.labels
      ++ map (λ o. (outline c o.0, faded (flash o.1 90 600 3000))) shown.outlines)
