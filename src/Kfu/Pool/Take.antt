-- ===== src/Kfu/Pool/Take.antt =====
-- assets/diagrams/gen/kfu.py, Pool.take: which worker it gives.
use redisq.Base.{
  ℕ, zero, suc, ◌+◌, ◌<◌, ◌≡◌, ◌≢◌, refl, ap, ◌∙◌, inl, inr, true, false, Option, none, some, List,
  [], ◌∷◌, ◌++◌, arith, ◌==◌, if◌then◌else◌, Bool-cases, elem, count, count-append, elem-append,
  elem-count, length, get_elem?, set, Result, ok, raise, ◌>>=◌,
}
use redisq.Kfu.Pool.{
  Pool, Lives, IsValid, pop_last, is_open_last, is_open, free_slot, lives_at, lives, spawn,
  take_from, take, close_from, release, is_busy,
}

pop_last_lem : (x : ℕ) (xs : List ℕ) → x ∷ xs ≡ (pop_last x xs).0 ++ (pop_last x xs).1 ∷ []
unfolding pop_last
pop_last_lem x [] = refl
pop_last_lem x (y ∷ ys) = ap (◌∷◌ x) (pop_last_lem y ys)

is_open_last-append :
    (e : Option ℕ) (ls : Lives) (t : ℕ) → is_open_last e (ls ++ (t, none) ∷ []) ≡ true
unfolding is_open_last
is_open_last-append none [] t = refl
is_open_last-append (some x) [] t = refl
is_open_last-append e (l ∷ ls) t = is_open_last-append l.1 ls t

is_open-append : (ls : Lives) (t : ℕ) → is_open (ls ++ (t, none) ∷ []) ≡ true
unfolding is_open
is_open-append [] t = refl
is_open-append (l ∷ ls) t = is_open_last-append l.1 ls t

pub is_open-close_from :
    (e : ℕ) (l : ℕ × Option ℕ) (ls : Lives) → is_open (close_from e l ls) ≡ false
unfolding close_from is_open
is_open-close_from e l [] = refl
is_open-close_from e l (l' ∷ []) = refl
is_open-close_from e l (l' ∷ l'' ∷ ls) = is_open-close_from e l' (l'' ∷ ls)

pub lives-set :
    (alive : List Lives) (w x : ℕ) (v l : Lives)
    → get_elem? alive w ≡ some l
    → lives_at (set alive w v) x ≡ (if w == x then v else lives_at alive x)
lives-set [] w x v l h = cc
lives-set (y ∷ ys) zero zero v l h = refl
lives-set (y ∷ ys) zero (suc x) v l h = ground arith
lives-set (y ∷ ys) (suc w) zero v l h = ground arith
lives-set (y ∷ ys) (suc w) (suc x) v l h = lives-set ys w x v l h ∙ ground arith

pub count_absent : (w : ℕ) (xs : List ℕ) → elem w xs ≡ false → count w xs ≡ 0
count_absent w [] h = refl
count_absent w (x ∷ xs) h = ground (arith, count_absent w xs)

-- A free slot is the place of a worker that is not alive.
free_slot-some :
    (k w : ℕ) (ls : List Lives)
    → free_slot k ls ≡ some w
    → (i : ℕ) × (l : Lives) × (w ≡ k + i) × (get_elem? ls i ≡ some l) × (is_open l ≡ false)
unfolding free_slot
free_slot-some k w [] h = cc
free_slot-some k w (l ∷ ls) h = elim (Bool-cases (is_open l)) [
  | inl o ↦
      let (i, x, e, g, c) = free_slot-some (suc k) w ls (ground arith) in
      (suc i, x, omega arith, g, c)
  | inr o ↦ (0, l, ground arith, refl, o)
]

free_slot-none :
    (k i : ℕ) (l : Lives) (ls : List Lives)
    → free_slot k ls ≡ none
    → get_elem? ls i ≡ some l
    → is_open l ≡ true
unfolding free_slot
free_slot-none k i l [] h g = cc
free_slot-none k zero l (x ∷ ls) h g = ground arith
free_slot-none k (suc i) l (x ∷ ls) h g = free_slot-none (suc k) i l ls (ground arith) g

-- What `take` and `release` do for the worker `w`, and for every other one.
pub record Takes (p q : Pool) (w : ℕ) : Type 0 where
  pub valid : IsValid q
  pub was_free : is_busy p w ≡ false
  pub now_busy : is_busy q w ≡ true
  pub others : (x : ℕ) → x ≢ w → is_busy q x ≡ is_busy p x

take_idle :
    (p : Pool) (x : ℕ) (xs : List ℕ)
    → p.idle ≡ x ∷ xs
    → IsValid p
    → Takes p (record p { idle = (pop_last x xs).0 }) (pop_last x xs).1
take_idle p x xs e v =
    let rest = (pop_last x xs).0 in
    let w = (pop_last x xs).1 in
    let split = e ∙ pop_last_lem x xs in
    record {
      valid = record {
        open_idle = λ y h. v.open_idle y (ground (arith, elem-append y rest (w ∷ [])));
        once = λ y. ground (arith, count-append y rest (w ∷ []), v.once y);
      };
      was_free = ground (arith, elem-append w rest (w ∷ []));
      now_busy = ground (
        arith,
        elem-append w rest (w ∷ []),
        v.open_idle w,
        count-append w rest (w ∷ []),
        v.once w,
        elem-count w rest,
      );
      others = λ y n. ground (arith, elem-append y rest (w ∷ []));
    }

take_spawn :
    (p : Pool) (t w : ℕ)
    → p.idle ≡ []
    → free_slot 0 p.alive ≡ some w
    → Takes p (record p { alive = set p.alive w (lives p w ++ (t, none) ∷ []) }) w
take_spawn p t w e f =
    let (i, l, k, g, c) = free_slot-some 0 w p.alive f in
    let new = lives p w ++ (t, none) ∷ [] in
    let here : get_elem? p.alive w ≡ some l = ground arith in
    let open_new = is_open-append (lives p w) t in
    record {
      valid = record { open_idle = λ y h. ground arith; once = λ y. ground arith };
      was_free = ground arith;
      now_busy = ground (arith, lives-set p.alive w w new l here);
      others = λ y n. ground (arith, lives-set p.alive w y new l here);
    }

-- Nobody is free: no worker is idle, and each one below the limit is alive.
abbrev pub IsFull : Pool → Type 0
IsFull p = (p.idle ≡ []) × ((w : ℕ) → w < length p.alive → is_busy p w ≡ true)

-- What `take` does, by its result.
abbrev pub Gives : Pool → Result (Pool × ℕ) → Type 0
Gives p (ok (q, w)) = Takes p q w
Gives p (raise e) = IsFull p

get_elem?-lt {ℓ} :
    {A : Type ℓ} (xs : List A) (i : ℕ) → i < length xs → (x : A) × (get_elem? xs i ≡ some x)
get_elem?-lt [] i h = absurd (omega arith)
get_elem?-lt (x ∷ xs) zero h = (x, refl)
get_elem?-lt (x ∷ xs) (suc i) h = get_elem?-lt xs i (omega arith)

spawn-Gives :
    (p : Pool) (t : ℕ) (o : Option ℕ)
    → p.idle ≡ []
    → free_slot 0 p.alive ≡ o
    → Gives p (spawn p t o)
unfolding spawn
spawn-Gives p t none e f = (
  e,
  λ w lt.
      let (l, g) = get_elem?-lt p.alive w lt in ground (arith, free_slot-none 0 w l p.alive f g),
)
spawn-Gives p t (some x) e f = take_spawn p t x e f

take_from-Gives :
    (p : Pool) (t : ℕ) (l : List ℕ) → p.idle ≡ l → IsValid p → Gives p (take_from p t l)
unfolding take_from
take_from-Gives p t [] e v = spawn-Gives p t (free_slot 0 p.alive) e refl
take_from-Gives p t (x ∷ xs) e v = take_idle p x xs e v

-- `take` on a valid pool returns a worker that was not at work and now is, and leaves every other
-- worker at work or free as it was, on a pool that is valid again. It raises only when no worker is
-- idle and every worker below the limit is at work.
pub take-Gives : (p : Pool) (t : ℕ) → IsValid p → Gives p (take p t)
unfolding take
take-Gives p t v = take_from-Gives p t p.idle refl v

pop_last-append : (x w : ℕ) (xs : List ℕ) → pop_last x (xs ++ w ∷ []) ≡ (x ∷ xs, w)
unfolding pop_last
pop_last-append x w [] = refl
pop_last-append x w (y ∷ ys) = rw (pop_last-append y w ys) refl

take_from-append :
    (p : Pool) (t w : ℕ) (l : List ℕ) → take_from p t (l ++ w ∷ []) ≡ ok (record p { idle = l }, w)
unfolding take_from pop_last
take_from-append p t w [] = refl
take_from-append p t w (x ∷ xs) = rw (pop_last-append x w xs) refl

-- Last in, first out: a worker that is kept at its release is the next one taken, whenever that is, and
-- the pool is then as it was before.
pub take-release :
    (p : Pool) (w t t' exit_in : ℕ) → (release p w t true exit_in >>= λ q. take q t') ≡ ok (p, w)
unfolding take release
take-release p w t t' exit_in = take_from-append _ t' w p.idle
