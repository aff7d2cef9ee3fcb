-- ===== src/Wake/Simulate/Log/Nudging.antt =====
-- gen_wake.py, build: a nudge keeps what is asserted of the nudges, and logs an entry that meets it.
use redisq.Base.{
  ℕ, ◌+◌, ◌≡◌, refl, inl, inr, Bool, true, false, not, List, [], ◌∷◌, ◌++◌, arith, ltb,
  if◌then◌else◌, Bool-cases, elem, add, discard, elem-add, elem-discard, all, length,
}
use redisq.Base.Heapq.{Entry, total-heappush}
use redisq.Wake.Simulate.{
  Sim, Event, nudge, pop, same, nudged, poke, member, push, is_nil, is_idle, take_signal,
  log_signal, pull, pull_from, log_nudge, on_nudge, local_gap,
}
use redisq.Wake.Simulate.Log.{is_poke, is_poke_at, check_nudge}
use redisq.Wake.Simulate.Log.Passes.{all-append, any-append}
use redisq.Wake.Simulate.Log.Nudges.{
  Signal, Nudge, nudges, nudged_before, poked_before, due, entry_due, IsNudged, all-heappush,
  all_due-others, all_due-poke, nudge_of, check_nudge-later, not_yet_poked, behind-later,
  poked-later, pull_from-IsNudged,
}

-- Between a nudge of `c` at `t` and the one that it starts.
record IsBetween (c t : ℕ) (s : Sim) : Type 0 where
  kept : IsNudged s
  none_left : nudges c s.ev ≡ 0
  behind : due s.nudge_log s.signal_log (t + 1) (nudge c) ≡ true

next_nudge : (c t : ℕ) (s : Sim) → IsBetween c t s → IsNudged (push (t + 10000) (nudge c) s)
unfolding push
next_nudge c t s h =
    let entry : Entry Event = record { time = t + 10000; order = s.seq; event = nudge c } in
    record {
      checked = h.kept.checked;
      single = λ d. ground (
        arith,
        total-heappush (λ x. nudge_of d x.event) entry s.ev,
        h.kept.single d,
        h.none_left,
      );
      fresh = ground (
        arith,
        h.behind,
        behind-later c (t + 1) (t + 10000) s.nudge_log,
        poked-later c (t + 1) (t + 10000) s.signal_log,
        h.kept.fresh,
        all-heappush (entry_due s.nudge_log s.signal_log) entry s.ev,
      );
    }

pull_from-IsBetween :
    (c t : ℕ) (q : List ℕ) (s : Sim) → IsBetween c t s → IsBetween c t (pull_from t c q s)
unfolding pull_from member push
pull_from-IsBetween c t [] s h = record {
  kept = pull_from-IsNudged t c [] s h.kept;
  none_left = h.none_left;
  behind = h.behind;
}
pull_from-IsBetween c t (j ∷ js) s h = record {
  kept = pull_from-IsNudged t c (j ∷ js) s h.kept;
  none_left = omega (
    arith,
    total-heappush (λ x. nudge_of c x.event)
        (record { time = t + local_gap; order = s.seq; event = pop c }) s.ev,
    h.none_left,
  );
  behind = h.behind;
}

-- A nudge that pokes, and one that does not.
module _ (c t : ℕ) (n : Nudge) (s : Sim) (now : n.0 ≡ t) (own : n.1 ≡ c) (last : nudges c s.ev ≡ 0)
    (past : due s.nudge_log s.signal_log t (nudge c) ≡ true) (h : IsNudged s) where
  silent-IsBetween :
      check_nudge s.signal_log n ≡ true
      → (r : Sim) → r.ev ≡ s.ev
      → r.nudge_log ≡ s.nudge_log ++ n ∷ []
      → r.signal_log ≡ s.signal_log
      → IsBetween c t r
  silent-IsBetween fine r e l g = record {
    kept = record {
      checked =
          rw (l, g)
            (ground
              (arith, h.checked, fine, all-append (check_nudge s.signal_log) s.nudge_log (n ∷ [])));
      single = λ d. rw e (h.single d);
      fresh = rw (e, l, g) (all_due-others s.nudge_log s.signal_log c n s.ev own last h.fresh);
    };
    none_left = rw e last;
    behind =
        rw (l, g)
          (ground (
            arith,
            past,
            now,
            behind-later c t (t + 1) s.nudge_log,
            poked-later c t (t + 1) s.signal_log,
            all-append (nudged_before c (t + 1)) s.nudge_log (n ∷ []),
          ));
  }

  poked-IsBetween :
      (b : Bool)
      → check_nudge (s.signal_log ++ (t, c, poke, b) ∷ []) n ≡ true
      → (r : Sim) → r.ev ≡ s.ev
      → r.nudge_log ≡ s.nudge_log ++ n ∷ []
      → r.signal_log ≡ s.signal_log ++ (t, c, poke, b) ∷ []
      → IsBetween c t r
  unfolding poked_before is_poke
  poked-IsBetween b fine r e l g =
      let gs = s.signal_log ++ (t, c, poke, b) ∷ [] in
      record {
        kept = record {
          checked =
              rw (l, g)
                (ground (
                  arith,
                  check_nudge-later s.signal_log t c poke b s.nudge_log,
                  past,
                  h.checked,
                  fine,
                  all-append (check_nudge gs) s.nudge_log (n ∷ []),
                ));
          single = λ d. rw e (h.single d);
          fresh =
              rw (e, l, g)
                (all_due-others s.nudge_log gs c n s.ev own last
                  (all_due-poke s.nudge_log s.signal_log t c b s.ev last h.fresh));
        };
        none_left = rw e last;
        behind =
            rw (l, g)
              (ground (
                arith,
                past,
                now,
                behind-later c t (t + 1) s.nudge_log,
                poked-later c t (t + 1) s.signal_log,
                all-append (nudged_before c (t + 1)) s.nudge_log (n ∷ []),
                all-append (poked_before c (t + 1)) s.signal_log ((t, c, poke, b) ∷ []),
              ));
      }

waiting_length : (q : List ℕ) → is_nil q ≡ false → ltb 0 (length q) ≡ true
unfolding is_nil
waiting_length [] h = cc
waiting_length (j ∷ q) h = ground arith

empty_length : (q : List ℕ) → is_nil q ≡ true → ltb 0 (length q) ≡ false
unfolding is_nil
empty_length [] h = refl
empty_length (j ∷ q) h = cc

-- The entry of a nudge, whether it pokes (`gs` holds the poke) or not.
waiting_nudge :
    (t c : ℕ) (q : List ℕ) (busy is_free in_idle b : Bool) (gs : List Signal)
    → is_nil q ≡ false
    → in_idle ≡ false
    → check_nudge (gs ++ (t, c, poke, b) ∷ []) (t, c, length q, busy, is_free, in_idle) ≡ true
unfolding check_nudge is_poke_at is_poke same
waiting_nudge t c q busy is_free in_idle b gs w i =
    ground (arith, waiting_length q w, i, any-append (is_poke_at t c) gs ((t, c, poke, b) ∷ []))

empty_nudge :
    (t c : ℕ) (q : List ℕ) (busy is_free in_idle : Bool) (gs : List Signal)
    → is_nil q ≡ true
    → (if is_free then in_idle else true) ≡ true
    → all (poked_before c t) gs ≡ true
    → check_nudge gs (t, c, length q, busy, is_free, in_idle) ≡ true
unfolding check_nudge same
empty_nudge t c q busy is_free in_idle gs w i p =
    ground (arith, empty_length q w, i, not_yet_poked c t gs p)

-- The poke of a nudge `n` that stands in the log of `x`, taken or ignored.
take_poke-IsBetween :
    (c t : ℕ) (n : Nudge) (s x : Sim)
    → n.0 ≡ t
    → n.1 ≡ c
    → nudges c s.ev ≡ 0
    → due s.nudge_log s.signal_log t (nudge c) ≡ true
    → IsNudged s
    → ((b : Bool) → check_nudge (s.signal_log ++ (t, c, poke, b) ∷ []) n ≡ true)
    → x.ev ≡ s.ev
    → x.nudge_log ≡ s.nudge_log ++ n ∷ []
    → x.signal_log ≡ s.signal_log
    → IsBetween c t (take_signal t c poke x)
unfolding take_signal pull log_signal
take_poke-IsBetween c t n s x now own last past h fine e l g =
    elim (Bool-cases (is_idle (x.busy c))) [
      | inl i ↦ rw i (
          pull_from-IsBetween c t x.queue (log_signal t c poke true x) (
            poked-IsBetween c t n s now own last past h true (fine true)
              (log_signal t c poke true x) e l (rw g refl)))
      | inr i ↦ rw i (
          poked-IsBetween c t n s now own last past h false (fine false)
            (log_signal t c poke false x) e l (rw g refl))
    ]

-- The state that a nudge leaves before its poke.
abbrev nudge_entry : ℕ → ℕ → Sim → Bool → Nudge
nudge_entry t c s in_idle = (t, c, length s.queue, not (is_idle (s.busy c)), s.is_free c, in_idle)

pub on_nudge-IsNudged :
    (t c : ℕ) (s : Sim)
    → nudges c s.ev ≡ 0
    → due s.nudge_log s.signal_log t (nudge c) ≡ true
    → IsNudged s
    → IsNudged (on_nudge t c s)
unfolding on_nudge log_nudge member
on_nudge-IsNudged t c s last past h = elim (Bool-cases (is_nil s.queue)) [
  | inr w ↦
      let out : elem c (discard c s.idle) ≡ false = ground (arith, elem-discard c c s.idle) in
      let n = nudge_entry t c s (elem c (discard c s.idle)) in
      let noted : Sim = record (log_nudge t c s (member t c false nudged s)) {
        stay_log = s.stay_log;
      } in
      rw w (
        next_nudge c t (take_signal t c poke noted) (
          take_poke-IsBetween c t n s noted refl refl last past h
            (λ b. waiting_nudge t c s.queue n.3 n.4 n.5 b s.signal_log w out) refl refl refl))
  | inl w ↦
      let behind : all (poked_before c t) s.signal_log ≡ true = ground (arith, past) in
      elim (Bool-cases (s.is_free c)) [
        | inl f ↦
            let inside : elem c (add c s.idle) ≡ true = ground (arith, elem-add c c s.idle) in
            let n = nudge_entry t c s (elem c (add c s.idle)) in
            rw (w, f)
              (next_nudge c t _ (
                silent-IsBetween c t n s refl refl last past h
                  (empty_nudge t c s.queue n.3 n.4 n.5 s.signal_log w (rw f inside) behind) _ refl
                  (rw f refl) refl))
        | inr f ↦
            let n = nudge_entry t c s (elem c s.idle) in
            rw (w, f)
              (next_nudge c t _ (
                silent-IsBetween c t n s refl refl last past h
                  (empty_nudge t c s.queue n.3 n.4 n.5 s.signal_log w (rw f refl) behind) _ refl
                  (rw f refl) refl))
      ]
]
