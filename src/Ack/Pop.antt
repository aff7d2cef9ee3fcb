-- ===== src/Ack/Pop.antt =====
-- assets/diagrams/gen/gen_ack.py, build: what a pop does, acknowledged or not.
use redisq.Base.{
  ℕ, zero, suc, ◌+◌, ◌-◌, ◌*◌, ◌≤◌, ◌<◌, ◌≡◌, refl, ap, ◌∙◌, true, false, Bool-cases, inl, inr,
  none, some, List, [], ◌∷◌, ◌++◌, length, elem, count, count-append, ltb, leb, ◌==◌, ok, ◌>>=◌,
  ℕ_discrete, arith,
}
use redisq.Base.Dict
use redisq.Base.Sort.{sorted}
use redisq.Kfu.Walk.{Point}
use redisq.Ack.Walk.{walk_goes, path_len, blink, dist}
use redisq.Ack.Build.{
  State, Dot, in_pending, is_done, slot_at, row_at, draw, place, first_of, remove, move_up, send,
  point, reserve, acknowledge, pop, vt, pop_edge, ack_edge, work,
}

-- The row of a pending job is taken out of the free ones.
remove_free :
    (r : ℕ) (l : List ℕ)
    → elem r l ≡ true
    → (l' : List ℕ) × (remove r l ≡ ok l') × ((x : ℕ) → count x l ≡ count x l' + count x (r ∷ []))
unfolding remove
remove_free r [] h = cc
remove_free r (x ∷ xs) h = elim (Bool-cases (x == r)) [
  | inl e ↦ (xs, rw e refl, λ y. ground (arith, e))
  | inr e ↦
      let (l', f, g) = remove_free r xs (ground (arith, h, e)) in
      (x ∷ l', rw (e, f) refl, λ y. ground (arith, g y))
]

slot_goes : (i : ℕ) → i ≤ 2 → (x : ℕ) × (slot_at i ≡ ok x)
unfolding slot_at
slot_goes zero h = (420, refl)
slot_goes (suc zero) h = (384, refl)
slot_goes (suc (suc zero)) h = (348, refl)
slot_goes (suc (suc (suc i))) h = absurd (omega arith)

row_goes : (r : ℕ) → r ≤ 1 → (y : ℕ × ℕ) × (row_at r ≡ ok y)
unfolding row_at
row_goes zero h = ((212, 273), refl)
row_goes (suc zero) h = ((212, 321), refl)
row_goes (suc (suc r)) h = absurd (omega arith)

-- Up to two jobs move up.
move_up_goes :
    (t i : ℕ) (l : List ℕ) (s : State)
    → i + length l ≤ 2
    → (f : ℕ → List Point) × (move_up t i l s ≡ ok (record s { item = f }))
unfolding move_up draw
move_up_goes t i [] s h = (s.item, refl)
move_up_goes t i (x ∷ l) s h =
    let (a, f) = slot_goes (suc i) (omega arith) in
    let (b, g) = slot_goes i (omega arith) in
    let (item, e) =
      move_up_goes t (suc i) l
        (draw x (point (t + 147000) a 160 1 ∷ point (t + 336000) b 160 1 ∷ []) s) (omega arith) in
    (item, rw (f, g, e) refl)

send_goes :
    (name : Dot) (t : ℕ) (p : ℕ × ℕ) (pts : List (ℕ × ℕ)) (s : State)
    → (l : List (Dot × List Point)) × (send name t (p ∷ pts) s
        ≡ ok (record s { rules = l }, t + blink + 1000 * path_len (p ∷ pts)))
unfolding send
send_goes name t p pts s =
    let rules =
      λ (w : List Point × ℕ). s.rules ++ (name, sorted (λ p q. leb p.time q.time) w.0) ∷ [] in
    let (out, f) = walk_goes t p pts in
    (rules (out, 0), ap (λ call. call >>= λ w. ok (record s { rules = rules w }, w.1)) f)

-- When the run of a job popped at `t` ends, and when its acknowledgement arrives.
abbrev pub done_at : ℕ → ℕ
done_at t = t + blink + 1000 * path_len pop_edge + work

abbrev pub acked_at : ℕ → ℕ
acked_at t = done_at t + blink + 1000 * path_len ack_edge

-- Before the pop of `k`: at most three jobs, a next row that is free, and a dot left.
pub record CanPop (s : State) (k r : ℕ) (rest : List ℕ) : Type 0 where
  pub rows : List ℕ
  pub next_dot : Dot
  pub dots : List Dot
  pub has_dot : s.dots ≡ next_dot ∷ dots
  pub head : s.lst ≡ k ∷ rest
  pub few : length rest ≤ 2
  pub next_row : s.rows ≡ r ∷ rows
  pub is_row : r ≤ 1
  pub is_free : elem r s.rows_free ≡ true

reserve_goes :
    (t k r : ℕ) (rest : List ℕ) (s : State)
    → (can : CanPop s k r rest)
    → (f : ℕ → List Point) × (free : List ℕ) × (reserve t s
        ≡ ok (
          record s {
            item = f;
            lst = rest;
            rows = can.rows;
            rows_free = free;
            places = s.places ++ (k, t, in_pending) ∷ [];
            deadlines = Dict.insert ℕ_discrete k (t + vt) s.deadlines;
          },
          k,
          r,
        ))
      × ((x : ℕ) → count x s.rows_free ≡ count x free + count x (r ∷ []))
unfolding reserve first_of draw place slot_at
reserve_goes t k r rest s can =
    let (free, e, c) = remove_free r s.rows_free can.is_free in
    let (y, f) = row_goes r can.is_row in
    let (item, m) =
      move_up_goes t 0 rest
        (draw k
          (point t 420 160 1 ∷ point (t + 147000) 420 y.1 1 ∷ point (t + 294000) y.0 y.1 1 ∷ [])
          (record s { lst = rest; rows = can.rows; rows_free = free }))
        (omega (arith, can.few)) in
    (item, free, rw (can.head, can.next_row, e, f, m) refl, c)

-- The pop of a job that is not acknowledged raises nothing. The job has left the list for the pending row `r`,
-- its deadline is VT after the pop and later than the end of its run, and the row is no longer free.
pub pop_unacknowledged :
    (t k r : ℕ) (rest : List ℕ) (s : State)
    → CanPop s k r rest
    → (s' : State) × (pop t false s ≡ ok (s', done_at t, none, r))
      × (s'.lst ≡ rest)
      × (s'.places ≡ s.places ++ (k, t, in_pending) ∷ [])
      × (Dict.get ℕ_discrete k s'.deadlines ≡ some (t + vt))
      × (done_at t < t + vt)
      × ((x : ℕ) → count x s.rows_free ≡ count x s'.rows_free + count x (r ∷ []))
unfolding pop first_of path_len dist
pop_unacknowledged t k r rest s can =
    let (f, free, e, c) = reserve_goes t k r rest s can in
    let s₁ : State = record s {
      item = f;
      lst = rest;
      rows = can.rows;
      rows_free = free;
      places = s.places ++ (k, t, in_pending) ∷ [];
      deadlines = Dict.insert ℕ_discrete k (t + vt) s.deadlines;
    } in
    let (rules, g) =
      send_goes can.next_dot t (470, 175) ((740, 175) ∷ []) (record s₁ { dots = can.dots }) in
    let s₂ : State = record s₁ {
      dots = can.dots;
      rules = rules;
      busy = s.busy ++ (t + blink + 1000 * path_len pop_edge, done_at t) ∷ [];
      pops = s.pops ++ (t, k) ∷ [];
      bars = s.bars ++ (r, t, t + vt, none) ∷ [];
    } in
    (
      s₂,
      rw (e, can.has_dot, g) refl,
      refl,
      refl,
      Dict.get-insert ℕ_discrete k k (t + vt) s.deadlines ∙ ground arith,
      omega arith,
      c,
    )

acknowledge_goes :
    (t k r : ℕ) (ack_dot : Dot) (ack_dots : List Dot) (s : State)
    → r ≤ 1
    → s.ack_dots ≡ ack_dot ∷ ack_dots
    → (f : ℕ → List Point) × (rules : List (Dot × List Point)) × (acknowledge t k r (done_at t) s
        ≡ ok (
          record s {
            item = f;
            rules = rules;
            ack_dots = ack_dots;
            places = s.places ++ (k, acked_at t, is_done) ∷ [];
            acks = s.acks ++ (acked_at t, k) ∷ [];
            bars = s.bars ++ (r, t, acked_at t, some (acked_at t - t)) ∷ [];
            rows_free = s.rows_free ++ r ∷ [];
          },
          done_at t,
          some (acked_at t),
          r,
        ))
unfolding acknowledge first_of draw place path_len dist
acknowledge_goes t k r ack_dot ack_dots s h e =
    let (y, f) = row_goes r h in
    let (rules, g) =
      send_goes ack_dot (done_at t) (780, 210) ((780, 240) ∷ (450, 240) ∷ (450, 260) ∷ [])
        (record s { ack_dots = ack_dots }) in
    let early : ltb (acked_at t - t) vt ≡ true = ground arith in
    (
      (draw k (point (acked_at t) y.0 y.1 1 ∷ point (acked_at t + 126000) y.0 y.1 0 ∷ []) s).item,
      rules,
      rw (e, g, f, early) refl,
    )

-- Take a state with a job at the head of the list, at most two jobs behind it, a next pending row that is free,
-- and a dot left for the pop and one for the acknowledgement. The pop of that job, if it is acknowledged, raises
-- nothing, for the acknowledgement arrives before the deadline. The job has left the list, was pending from the pop and is done from the acknowledgement, which is the only
-- one that is added; and the free rows are those that were free before.
pub pop_acknowledged :
    (t k r : ℕ) (rest : List ℕ) (ack_dot : Dot) (ack_dots : List Dot) (s : State)
    → CanPop s k r rest
    → s.ack_dots ≡ ack_dot ∷ ack_dots
    → (s' : State) × (pop t true s ≡ ok (s', done_at t, some (acked_at t), r))
      × (s'.lst ≡ rest)
      × (s'.places ≡ (s.places ++ (k, t, in_pending) ∷ []) ++ (k, acked_at t, is_done) ∷ [])
      × (s'.acks ≡ s.acks ++ (acked_at t, k) ∷ [])
      × (acked_at t < t + vt)
      × ((x : ℕ) → count x s'.rows_free ≡ count x s.rows_free)
unfolding pop first_of path_len dist
pop_acknowledged t k r rest ack_dot ack_dots s can has =
    let (f, free, e, c) = reserve_goes t k r rest s can in
    let s₁ : State = record s {
      item = f;
      lst = rest;
      rows = can.rows;
      rows_free = free;
      places = s.places ++ (k, t, in_pending) ∷ [];
      deadlines = Dict.insert ℕ_discrete k (t + vt) s.deadlines;
    } in
    let (rules, g) =
      send_goes can.next_dot t (470, 175) ((740, 175) ∷ []) (record s₁ { dots = can.dots }) in
    let s₂ : State = record s₁ {
      dots = can.dots;
      rules = rules;
      busy = s.busy ++ (t + blink + 1000 * path_len pop_edge, done_at t) ∷ [];
      pops = s.pops ++ (t, k) ∷ [];
    } in
    let (f', rules', h) = acknowledge_goes t k r ack_dot ack_dots s₂ can.is_row has in
    (
      record s₂ {
        item = f';
        rules = rules';
        ack_dots = ack_dots;
        places = s₂.places ++ (k, acked_at t, is_done) ∷ [];
        acks = s.acks ++ (acked_at t, k) ∷ [];
        bars = s.bars ++ (r, t, acked_at t, some (acked_at t - t)) ∷ [];
        rows_free = free ++ r ∷ [];
      },
      rw (e, can.has_dot, g, h) refl,
      refl,
      refl,
      refl,
      omega arith,
      λ x. omega (arith, c x, count-append x free (r ∷ [])),
    )
