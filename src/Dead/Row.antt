-- ===== src/Dead/Row.antt =====
-- assets/diagrams/gen/gen_dead.py, draw_row: the keyframes of one row, without the markup and the widths of its texts.
-- Times are whole milliseconds; a drawn time is rounded to one. A job is acknowledged once, so that `ack_d` is the
-- list of acknowledgments.
pub mod Moves
pub mod Texts
use redisq.Base.{
  ℕ, ◌+◌, ◌*◌, ◌/◌, max, Bool, true, false, ◌&&◌, not, none, some, List, [], ◌∷◌, map, ltb, leb,
  if◌then◌else◌, get_elem?, Result, ok, raise, ◌>>=◌, ◌>>◌, assert, or_raise, index_error,
  value_error,
}
use redisq.Base.Sort.{sorted}
use redisq.Kfu.Keyframes.{by_time}
use redisq.Kfu.Pulses.{ring}
use redisq.Dead.Store.{Note}
use redisq.Dead.Store.Simulate.Facts.{Facts}
use redisq.Dead.TimeMap.{Knot, Drawn, call}
use redisq.Dead.Swap.{CrossFade, Change, swap}
use redisq.Dead.Vis.{vis}

-- What a keyframe sets: the opacity in hundredths, and a transform; a `scaleX` is in parts of HBT, 1/30000.
pub data Transform : Type 0 where
  plain : Transform
  scale_x scale : ℕ → Transform
  place : ℕ → ℕ → Transform

pub record Look : Type 0 where
  pub opacity : ℕ
  pub transform : Transform

abbrev pub Rule : Type 0
Rule = List (ℕ × Look)

-- The elements of a row, whose names end in its letter.
pub data Track : Type 0 where
  c2 c2_glow c2_bar c2_ring kill_mark sub chan hb gr c1_ring own2a own2b acked wk c1_glow c1_bar :
      Track
  c2_cap stx hbc mkc nar job pop_dot own1 clk : ℕ → Track
  ff replay : Track

abbrev pub Rules : Type 0
Rules = List (Track × Rule)

-- A track that sets the opacity only, and `sx`.
abbrev pub opaque : ℕ → Look
opaque o = record { opacity = o; transform = plain }

abbrev pub sx : ℕ → ℕ → Look
sx o s = record { opacity = 100 * o; transform = scale_x s }

unfoldable pub faded : List (ℕ × ℕ) → Rule
faded = map (λ p. (p.0, opaque p.1))

-- `kf`.
unfoldable pub kf : Track → Rule → Track × Rule
kf name pts = (name, sorted by_time pts)

-- The rules of a `swap`, one for each state, which set an opacity of 1 or 0.
unfoldable pub numbered : (ℕ → Track) → ℕ → List (List (ℕ × ℕ)) → Rules
unfolding faded
numbered name k [] = []
numbered name k (rule ∷ rules) =
    (name k, faded (map (λ p. (p.0, 100 * p.1)) rule)) ∷ numbered name (k + 1) rules

unfoldable pub swapped : CrossFade → (ℕ → Track) → List Change → ℕ → ℕ → Result Rules
unfolding numbered
swapped xf name changes n fade = swap xf changes n fade >>= λ rules. ok (numbered name 0 rules)

abbrev pub change : ℕ → ℕ → Change
change t i = record { time = t; state = i; fade = none }

-- `(XF0, 0, XF)`.
abbrev pub back : CrossFade → Change
back xf = record { time = xf.start; state = 0; fade = some 700 }

-- A drawn time in tenths of a millisecond, rounded to a whole millisecond.
to_ms : Drawn → ℕ
to_ms d = (2 * d.num + 10 * d.den) / (20 * d.den)

unfoldable pub drawn : List Knot → ℕ → Result ℕ
unfolding to_ms
drawn knots s = call knots s >>= λ d. ok (to_ms d)

pub drawn_all : List Knot → List (ℕ × ℕ) → Result (List (ℕ × ℕ))
unfolding drawn
drawn_all knots [] = ok []
drawn_all knots ((t, v) ∷ l) = do d ← drawn knots t; rest ← drawn_all knots l; ok ((d, v) ∷ rest)

-- `f["sweeps"]` outside the fast-forward and in time before the loop's end.
drawn_sweeps : CrossFade → List Knot → List (ℕ × Bool × List Note) → Result (List ℕ)
unfolding drawn
drawn_sweeps xf knots [] = ok []
drawn_sweeps xf knots ((t, ticked, notes) ∷ l) =
    let rest = drawn_sweeps xf knots l in
    let kept =
      drawn knots t >>= λ d. rest >>= λ r. ok (if leb (d + 600) xf.end then d ∷ r else r) in
    if ltb 9000 t && ltb t 29000 then rest else kept

-- The drawn moments of a row.
pub record Moments : Type 0 where
  pub kill : ℕ
  pub c2_sweep : ℕ
  pub reap : ℕ
  pub wake : ℕ
  pub pops : List (ℕ × ℕ)
  pub acks : List (ℕ × ℕ)
  pub sweeps : List ℕ
  pub skip : ℕ
  pub check : ℕ
  pub last_ack : ℕ

maximum : List ℕ → Result ℕ
maximum [] = raise value_error
maximum (x ∷ []) = ok x
maximum (x ∷ y ∷ l) = maximum (y ∷ l) >>= λ m. ok (max x m)

unfoldable pub moments : CrossFade → List Knot → Facts → Result Moments
unfolding drawn drawn_all drawn_sweeps maximum
moments xf knots f = do
  kill ← drawn knots f.kill
  c2_sweep ← drawn knots f.c2_last
  reap ← drawn knots f.reap
  wake ← drawn knots f.wake
  pops ← drawn_all knots f.pops
  acks ← drawn_all knots f.acks
  sweeps ← drawn_sweeps xf knots f.sweeps
  first ← or_raise index_error (get_elem? f.sweeps 0)
  second ← or_raise index_error (get_elem? f.sweeps 1)
  assert (not first.1 && second.1)
  skip ← drawn knots first.0
  check ← drawn knots second.0
  last_ack ← maximum (map (λ p. p.0) acks)
  ok (record {
    kill = kill;
    c2_sweep = c2_sweep;
    reap = reap;
    wake = wake;
    pops = pops;
    acks = acks;
    sweeps = sweeps;
    skip = skip;
    check = check;
    last_ack = last_ack;
  })

-- Consumer 2: alive and busy, then stopped.
unfoldable pub consumer : CrossFade → Moments → Rules
unfolding kf faded
consumer xf m =
    kf c2
      (faded ((0, 100) ∷ (m.kill, 100) ∷ (m.kill + 400, 35) ∷ (xf.start, 35) ∷ (xf.end, 100) ∷ []))
    ∷ kf c2_glow
        (faded ((0, 14) ∷ (m.kill, 14) ∷ (m.kill + 300, 0) ∷ (xf.middle, 0) ∷ (xf.end, 14) ∷ []))
    ∷ kf c2_bar (
        (0, sx 1 12000)
        ∷ (m.kill, sx 1 13800)
        ∷ (m.kill + 300, sx 0 13800)
        ∷ (xf.middle, sx 0 12000)
        ∷ (xf.end, sx 1 12000)
        ∷ [])
    ∷ (
      c2_ring,
      map (λ p. (p.0, record { opacity = p.1; transform = scale p.2 }))
          (ring (m.c2_sweep ∷ []) 600),
    )
    ∷ (kill_mark, faded (vis xf ((some m.kill, none) ∷ []) 100 150))
    ∷ []

-- The subscription: row A drops it with the connection, row B keeps it.
unfoldable pub subscription : Bool → CrossFade → Moments → Rules
unfolding kf faded
subscription true xf m =
    (sub, faded (vis xf ((none, some m.kill) ∷ []) 100 150))
    ∷ kf chan (
        faded ((0, 100) ∷ (m.kill, 100) ∷ (m.kill + 300, 30) ∷ (xf.start, 30) ∷ (xf.end, 100) ∷ []))
    ∷ []
subscription false xf m =
    (sub, faded (vis xf ((none, none) ∷ []) 100 150))
    ∷ (chan, faded (vis xf ((none, none) ∷ []) 100 150))
    ∷ []

-- The pulses of consumer 1's sweeps, each its own.
are_own : List ℕ → Bool
are_own [] = true
are_own (t ∷ []) = true
are_own (t ∷ u ∷ l) = leb (t + 600) u && are_own (u ∷ l)

unfoldable pub pulses : Moments → Result (Track × Rule)
unfolding are_own
pulses m = do
  assert (are_own m.sweeps)
  ok (
    c1_ring,
    map (λ p. (p.0, record { opacity = p.1; transform = scale p.2 })) (ring m.sweeps 600),
  )
