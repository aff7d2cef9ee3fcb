-- ===== src/Kfu/Spans.antt =====
-- assets/diagrams/gen/kfu.py, merge and flash: spans of time, merged and drawn as flashes. Times are
-- whole milliseconds, opacities hundredths.
pub mod Lit
use redisq.Base.{
  ℕ, ◌+◌, ◌≤◌, ◌<◌, ◌≡◌, refl, ◌∙◌, sym, inl, inr, Bool, true, ◌&&◌, ◌||◌, List, [], ◌∷◌, max,
  arith, ltb, leb, ◌==◌, if◌then◌else◌, Bool-cases, any, leb→lt,
}
use redisq.Base.Sort.{
  sorted, insert_sorted, any-sorted, IsOrderedBy, sorted-IsOrderedBy, IsOrderedBy-weaken,
}
use redisq.Kfu.Keyframes.{by_time, IsOrdered, sorted_ordered}

abbrev pub Span : Type 0
Span = ℕ × ℕ

-- Tuples are compared by their starts, then by their ends.
abbrev pub span_le : Span → Span → Bool
span_le p q = ltb p.0 q.0 || p.0 == q.0 && leb p.1 q.1

-- The loop of `merge`; `a`, `b` is `out[-1]`, and what stands before it in `out` is final.
merge_run : ℕ → ℕ → ℕ → List Span → List Span
merge_run pad a b [] = (a, b) ∷ []
merge_run pad a b ((s, e) ∷ spans) =
    let joined = merge_run pad a (max b e) spans in
    let apart = merge_run pad s e spans in if leb s (b + pad) then joined else (a, b) ∷ apart

merge_sorted : ℕ → List Span → List Span
unfolding merge_run
merge_sorted pad [] = []
merge_sorted pad ((s, e) ∷ spans) = merge_run pad s e spans

unfoldable pub merge : ℕ → List Span → List Span
unfolding merge_sorted
merge pad spans = merge_sorted pad (sorted span_le spans)

-- Some span, its end moved by `pad`, holds the time.
abbrev pub covers : ℕ → ℕ → List Span → Bool
covers pad t = any (λ p. leb p.0 t && leb t (p.1 + pad))

-- Each span starts more than `pad` after the one before it ends.
abbrev pub AreApart : ℕ → List Span → Type 0
AreApart pad [] = Unit {0}
AreApart pad (p ∷ []) = Unit {0}
AreApart pad (p ∷ q ∷ spans) = (p.1 + pad < q.0) × AreApart pad (q ∷ spans)

abbrev AreApartFrom : ℕ → ℕ → List Span → Type 0
AreApartFrom pad b [] = Unit {0}
AreApartFrom pad b (p ∷ spans) = (b + pad < p.0) × AreApart pad (p ∷ spans)

AreApart-cons :
    (pad a b : ℕ) (spans : List Span) → AreApartFrom pad b spans → AreApart pad ((a, b) ∷ spans)
AreApart-cons pad a b [] h = tt
AreApart-cons pad a b (p ∷ spans) h = h

merge_run-AreApart :
    (pad a b c : ℕ) (spans : List Span) → c + pad < a → AreApartFrom pad c (merge_run pad a b spans)
unfolding merge_run
merge_run-AreApart pad a b c [] h = (h, tt)
merge_run-AreApart pad a b c ((s, e) ∷ spans) h = elim (Bool-cases (leb s (b + pad))) [
  | inl j ↦ rw j (merge_run-AreApart pad a (max b e) c spans h)
  | inr n ↦ rw n (
    h,
    AreApart-cons pad a b (merge_run pad s e spans)
        (merge_run-AreApart pad s e b spans (leb→lt _ _ n)),
  )
]

merge_run-first : (pad a b : ℕ) (spans : List Span) → AreApart pad (merge_run pad a b spans)
unfolding merge_run
merge_run-first pad a b [] = tt
merge_run-first pad a b ((s, e) ∷ spans) = elim (Bool-cases (leb s (b + pad))) [
  | inl j ↦ rw j (merge_run-first pad a (max b e) spans)
  | inr n ↦ rw n (
      AreApart-cons pad a b (merge_run pad s e spans)
        (merge_run-AreApart pad s e b spans (leb→lt _ _ n)))
]

merge_run-kept :
    (pad a b t : ℕ) (spans : List Span)
    → IsOrderedBy (λ p. p.0) a spans
    → covers 0 t ((a, b) ∷ spans) ≡ true
    → covers 0 t (merge_run pad a b spans) ≡ true
unfolding merge_run
merge_run-kept pad a b t [] o h = h
merge_run-kept pad a b t ((s, e) ∷ spans) o h = ground (
  arith,
  merge_run-kept pad a (max b e) t spans (IsOrderedBy-weaken (λ p. p.0) a s spans o.0 o.1),
  merge_run-kept pad s e t spans o.1,
)

merge_run-within :
    (pad a b t : ℕ) (spans : List Span)
    → covers 0 t (merge_run pad a b spans) ≡ true
    → covers pad t ((a, b) ∷ spans) ≡ true
unfolding merge_run
merge_run-within pad a b t [] h = ground arith
merge_run-within pad a b t ((s, e) ∷ spans) h =
    ground (arith, merge_run-within pad a (max b e) t spans, merge_run-within pad s e t spans)

merge_sorted_lem :
    (pad : ℕ) (spans : List Span)
    → IsOrderedBy (λ p. p.0) 0 spans
    → AreApart pad (merge_sorted pad spans)
      × ((t : ℕ) → covers 0 t spans ≡ true → covers 0 t (merge_sorted pad spans) ≡ true)
      × ((t : ℕ) → covers 0 t (merge_sorted pad spans) ≡ true → covers pad t spans ≡ true)
unfolding merge_sorted
merge_sorted_lem pad [] o = (tt, λ t h. h, λ t h. cc)
merge_sorted_lem pad ((s, e) ∷ spans) o = (
  merge_run-first pad s e spans,
  λ t. merge_run-kept pad s e t spans o.1,
  λ t. merge_run-within pad s e t spans,
)

-- Merged spans stand more than `pad` apart. They hold every time that a given span holds, and no time
-- but those that a given span holds when its end is moved by `pad`; for `pad` 0 the two are the same.
pub merge_exact :
    (pad : ℕ) (spans : List Span)
    → AreApart pad (merge pad spans)
      × ((t : ℕ) → covers 0 t spans ≡ true → covers 0 t (merge pad spans) ≡ true)
      × ((t : ℕ) → covers 0 t (merge pad spans) ≡ true → covers pad t spans ≡ true)
unfolding merge
merge_exact pad spans =
    let o =
      sorted-IsOrderedBy span_le (λ p. p.0) (λ p q h. ground arith) (λ p q h. ground arith) spans in
    let (apart, kept, within) = merge_sorted_lem pad (sorted span_le spans) o in
    (
      apart,
      λ t h. kept t (any-sorted span_le _ spans ∙ h),
      λ t h. sym (any-sorted span_le _ spans) ∙ within t h,
    )

-- `flash`: the keyframes before `kf` puts them in order.
pub flash_spans : ℕ → ℕ → ℕ → List Span → List (ℕ × ℕ)
flash_spans peak rise fall [] = []
flash_spans peak rise fall ((s, e) ∷ spans) =
    (s, 0) ∷ (s + rise, peak) ∷ (e, peak) ∷ (e + fall, 0) ∷ flash_spans peak rise fall spans

unfoldable pub flash : List Span → ℕ → ℕ → ℕ → List (ℕ × ℕ)
unfolding flash_spans
flash spans peak rise fall =
    sorted by_time ((0, 0) ∷ flash_spans peak rise fall (merge (rise + fall) spans))

-- Each span leaves room to rise.
abbrev pub AreLong : ℕ → List Span → Type 0
AreLong rise [] = Unit {0}
AreLong rise (p ∷ spans) = (p.0 + rise ≤ p.1) × AreLong rise spans

flash_spans-IsOrdered :
    (peak rise fall t : ℕ) (spans : List Span)
    → AreApart (rise + fall) spans
    → AreLong rise spans
    → ((p : Span) (rest : List Span) → spans ≡ p ∷ rest → t ≤ p.0)
    → IsOrdered t (flash_spans peak rise fall spans)
unfolding flash_spans
flash_spans-IsOrdered peak rise fall t [] a l h = tt
flash_spans-IsOrdered peak rise fall t ((s, e) ∷ []) a l h =
    (h (s, e) [] refl, (omega arith, (l.0, (omega arith, tt))))
flash_spans-IsOrdered peak rise fall t ((s, e) ∷ q ∷ spans) a l h = (
  h (s, e) (q ∷ spans) refl,
  (
    omega arith,
    (
      l.0,
      (
        omega arith,
        flash_spans-IsOrdered peak rise fall (e + fall) (q ∷ spans) a.1 l.1
            (λ p rest eq. ground (arith, a.0)),
      ),
    ),
  ),
)

merge_run-AreLong :
    (rise pad a b : ℕ) (spans : List Span)
    → AreLong rise ((a, b) ∷ spans)
    → AreLong rise (merge_run pad a b spans)
unfolding merge_run
merge_run-AreLong rise pad a b [] l = l
merge_run-AreLong rise pad a b ((s, e) ∷ spans) l = elim (Bool-cases (leb s (b + pad))) [
  | inl j ↦ rw j (merge_run-AreLong rise pad a (max b e) spans (omega arith, l.1.1))
  | inr n ↦ rw n (l.0, merge_run-AreLong rise pad s e spans l.1)
]

insert-AreLong :
    (rise : ℕ) (p : Span) (spans : List Span)
    → p.0 + rise ≤ p.1
    → AreLong rise spans
    → AreLong rise (insert_sorted span_le p spans)
unfolding insert_sorted
insert-AreLong rise p [] h l = (h, tt)
insert-AreLong rise p (q ∷ spans) h l = elim (Bool-cases (span_le p q)) [
  | inl e ↦ rw e (h, l)
  | inr e ↦ rw e (l.0, insert-AreLong rise p spans h l.1)
]

sorted-AreLong :
    (rise : ℕ) (spans : List Span) → AreLong rise spans → AreLong rise (sorted span_le spans)
unfolding sorted
sorted-AreLong rise [] l = tt
sorted-AreLong rise (p ∷ spans) l =
    insert-AreLong rise p (sorted span_le spans) l.0 (sorted-AreLong rise spans l.1)

merge-AreLong :
    (rise pad : ℕ) (spans : List Span) → AreLong rise spans → AreLong rise (merge pad spans)
unfolding merge
merge-AreLong rise pad spans l = go (sorted span_le spans) (sorted-AreLong rise spans l)
  where
    go : (xs : List Span) → AreLong rise xs → AreLong rise (merge_sorted pad xs)
    go [] k = tt
    go ((s, e) ∷ xs) k = merge_run-AreLong rise pad s e xs k

-- Where every span is at least `rise` long, the flashes never overlap: the keyframes come out in order
-- of time just as they are written span by span.
pub flash_in_order :
    (spans : List Span) (peak rise fall : ℕ)
    → AreLong rise spans
    → flash spans peak rise fall ≡ (0, 0) ∷ flash_spans peak rise fall (merge (rise + fall) spans)
unfolding flash
flash_in_order spans peak rise fall l = sorted_ordered 0 _ (
  omega arith,
  flash_spans-IsOrdered peak rise fall 0 (merge (rise + fall) spans)
      (merge_exact (rise + fall) spans).0 (merge-AreLong rise (rise + fall) spans l)
      (λ p rest e. omega arith),
)
