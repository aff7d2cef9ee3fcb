-- ===== src/Kfu/Pool/Release.antt =====
-- assets/diagrams/gen/kfu.py, Pool.release: what it frees.
use redisq.Base.{
  ℕ, ◌+◌, ◌≡◌, ◌≢◌, refl, inl, inr, Bool, true, false, some, [], ◌∷◌, ◌++◌, arith, Option-cases,
  elem, count-append, elem-append, get_elem?, set, ok,
}
use redisq.Kfu.Pool.{Pool, Lives, IsValid, is_open, lives, close_from, close_last, release, is_busy}
use redisq.Kfu.Pool.Take.{is_open-close_from, lives-set, count_absent}

-- What `release` does for the worker `w`, and for every other one.
pub record Frees (p q : Pool) (w : ℕ) : Type 0 where
  pub valid : IsValid q
  pub now_free : is_busy q w ≡ false
  pub others : (x : ℕ) → x ≢ w → is_busy q x ≡ is_busy p x

not_open_nil : is_open [] ≡ false
unfolding is_open
not_open_nil = refl

close_last_cons :
    (e : ℕ) (l : Lives)
    → is_open l ≡ true
    → (r : Lives) × (close_last e l ≡ ok r) × (is_open r ≡ false)
unfolding close_last
close_last_cons e [] o = absurd (ground (arith, not_open_nil))
close_last_cons e (x ∷ xs) o = (close_from e x xs, refl, is_open-close_from e x xs)

retire-Frees :
    (p : Pool) (w t exit_in : ℕ) (l : Lives)
    → IsValid p
    → get_elem? p.alive w ≡ some l
    → is_open l ≡ true
    → elem w p.idle ≡ false
    → (q : Pool) × (release p w t false exit_in ≡ ok q) × Frees p q w
unfolding release
retire-Frees p w t exit_in l v g o i =
    let (r, e, c) = close_last_cons (t + exit_in) l o in
    (
      record p { alive = set p.alive w r },
      ground arith,
      record {
        valid = record {
          open_idle = λ x h. ground (arith, lives-set p.alive w x r l g, v.open_idle x);
          once = v.once;
        };
        now_free = ground (arith, lives-set p.alive w w r l g);
        others = λ x n. ground (arith, lives-set p.alive w x r l g);
      },
    )

keep-Frees :
    (p : Pool) (w : ℕ)
    → IsValid p
    → is_open (lives p w) ≡ true
    → elem w p.idle ≡ false
    → Frees p (record p { idle = p.idle ++ w ∷ [] }) w
keep-Frees p w v o i = record {
  valid = record {
    open_idle = λ x h. ground (arith, elem-append x p.idle (w ∷ []), v.open_idle x);
    once = λ x. ground (arith, count-append x p.idle (w ∷ []), v.once x, count_absent w p.idle);
  };
  now_free = ground (arith, elem-append w p.idle (w ∷ []));
  others = λ x n. ground (arith, elem-append x p.idle (w ∷ []));
}

-- `release` of a worker at work, kept or retired, raises nothing: the worker is not at work afterwards,
-- every other one is at work or free as it was, and the pool is valid.
pub release-Frees :
    (p : Pool) (w t exit_in : ℕ) (keep : Bool)
    → IsValid p
    → is_busy p w ≡ true
    → (q : Pool) × (release p w t keep exit_in ≡ ok q) × Frees p q w
unfolding release
release-Frees p w t exit_in true v b = (_, refl, keep-Frees p w v (ground arith) (ground arith))
release-Frees p w t exit_in false v b = elim (Option-cases (get_elem? p.alive w)) [
  | inl g ↦ absurd (ground (arith, not_open_nil))
  | inr (l, g) ↦ retire-Frees p w t exit_in l v g (ground arith) (ground arith)
]
