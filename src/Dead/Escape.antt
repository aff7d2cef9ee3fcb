-- ===== src/Dead/Escape.antt =====
-- assets/diagrams/gen/gen_dead.py, esc: the text of a label as XML. A text is the list of its code points.
use mathlib.Core.List.{append_assoc}
use redisq.Base.{
  ℕ, ◌≡◌, refl, ap, ◌∙◌, sym, inl, inr, false, Bool-cases, List, [], ◌∷◌, ◌++◌, ◌==◌, if◌then◌else◌,
  elem, elem-append, arith,
}

-- `str.replace` of one character.
replace : ℕ → List ℕ → List ℕ → List ℕ
replace c new [] = []
replace c new (x ∷ s) = let rest = replace c new s in if x == c then new ++ rest else x ∷ rest

-- "&amp;", "&lt;" and "&gt;".
abbrev pub amp : List ℕ
amp = 38 ∷ 97 ∷ 109 ∷ 112 ∷ 59 ∷ []

abbrev pub lt : List ℕ
lt = 38 ∷ 108 ∷ 116 ∷ 59 ∷ []

abbrev pub gt : List ℕ
gt = 38 ∷ 103 ∷ 116 ∷ 59 ∷ []

pub esc : List ℕ → List ℕ
unfolding replace
esc s = replace 62 gt (replace 60 lt (replace 38 amp s))

-- What stands for one character, and the text with each character replaced once.
abbrev pub entity : ℕ → List ℕ
entity c = if c == 38 then amp else if c == 60 then lt else if c == 62 then gt else c ∷ []

abbrev pub escape_each : List ℕ → List ℕ
escape_each [] = []
escape_each (c ∷ s) = entity c ++ escape_each s

replace-append :
    (c : ℕ) (new xs ys : List ℕ) → replace c new (xs ++ ys) ≡ replace c new xs ++ replace c new ys
unfolding replace
replace-append c new [] ys = refl
replace-append c new (x ∷ xs) ys = elim (Bool-cases (x == c)) [
  | inl e ↦
      rw (e, replace-append c new xs ys)
        (sym (append_assoc new (replace c new xs) (replace c new ys)))
  | inr e ↦ rw (e, replace-append c new xs ys) refl
]

esc_cons : (c : ℕ) (s : List ℕ) → esc (c ∷ s) ≡ entity c ++ esc s
unfolding esc replace
esc_cons c s = elim (Bool-cases (c == 38)) [
  | inl e ↦ rw e refl
  | inr e ↦ elim (Bool-cases (c == 60)) [
    | inl f ↦ rw (e, f) refl
    | inr f ↦ elim (Bool-cases (c == 62)) [ inl g ↦ rw (e, f, g) refl | inr g ↦ rw (e, f, g) refl ]
  ]
]

esc_each : (s : List ℕ) → esc s ≡ escape_each s
unfolding esc
esc_each [] = refl
esc_each (c ∷ s) = esc_cons c s ∙ ap (λ l. entity c ++ l) (esc_each s)

no_markup : (c : ℕ) → (elem 60 (entity c) ≡ false) × (elem 62 (entity c) ≡ false)
no_markup c = ground arith

each_no_markup :
    (s : List ℕ) → (elem 60 (escape_each s) ≡ false) × (elem 62 (escape_each s) ≡ false)
each_no_markup [] = (refl, refl)
each_no_markup (c ∷ s) =
    let (a, b) = each_no_markup s in
    let (x, y) = no_markup c in
    (
      rw (elem-append 60 (entity c) (escape_each s), x) a,
      rw (elem-append 62 (entity c) (escape_each s), y) b,
    )

-- Three replacements, one after the other, escape each character once: the "&" that the later ones bring is
-- not escaped again. No "<" and no ">" is left in the text.
pub esc_each_once :
    (s : List ℕ) → (esc s ≡ escape_each s) × (elem 60 (esc s) ≡ false) × (elem 62 (esc s) ≡ false)
esc_each_once s =
    let (a, b) = each_no_markup s in (esc_each s, rw (esc_each s) a, rw (esc_each s) b)
