-- ===== src/Prelude/Rows.antt =====
-- SQL's `WHERE`, `IN` and `ORDER BY` on lists of rows, and what they do to a sorted key.
use mathlib.Core.List.{List, [], ◌∷◌, ◌++◌, map}
use mathlib.Core.Path.{◌≡◌, refl, ap, subst}
use mathlib.Core.Bool.{Bool, true, false, not, ◌||◌}
use mathlib.Core.Option.{Option, none, some}
use mathlib.Core.Logic.{inl, inr}
use native.Mathlib.Omega.{arith}
use Prim.Native.Nat.{ℕ, ◌<◌}
use rustmail.Prelude.Tests.{◌==◌, if◌then◌else◌, Bool-cases, ==_iff, or_right}
use rustmail.Prelude.Lists.{All, All-append}

true-ne-false : (b : Bool) → b ≡ true → b ≡ false → ⊥
true-ne-false true h e = cc
true-ne-false false h e = cc

module _ {ℓ} {A : Type ℓ} where
  -- the rows that pass a test
  abbrev pub keep : (A → Bool) → List A → List A
  keep p [] = []
  keep p (x ∷ xs) = if p x then x ∷ keep p xs else keep p xs

  abbrev pub without : (A → Bool) → List A → List A
  without p = keep (λ x. not (p x))

  abbrev pub first : List A → Option A
  first [] = none
  first (x ∷ xs) = some x

  -- `ORDER BY … DESC` of rows that are listed in ascending order
  abbrev pub newest_first : List A → List A
  newest_first [] = []
  newest_first (x ∷ xs) = newest_first xs ++ x ∷ []

  pub keep-append : (p : A → Bool) (xs ys : List A) → keep p (xs ++ ys) ≡ keep p xs ++ keep p ys
  keep-append p [] ys = refl
  keep-append p (x ∷ xs) ys = elim (Bool-cases (p x)) [
    | inl e ↦ rw e (ap (◌∷◌ x) (keep-append p xs ys))
    | inr e ↦ rw e (keep-append p xs ys)
  ]

  -- Tests that agree on every row keep the same rows.
  pub keep-All : (p q : A → Bool) (xs : List A) → All (λ x. p x ≡ q x) xs → keep p xs ≡ keep q xs
  keep-All p q [] h = refl
  keep-All p q (x ∷ xs) (e, h) = rw (e, keep-All p q xs h) refl

  pub keep-all : (p : A → Bool) (xs : List A) → All (λ x. p x ≡ true) xs → keep p xs ≡ xs
  keep-all p [] h = refl
  keep-all p (x ∷ xs) (e, h) = rw e (ap (◌∷◌ x) (keep-all p xs h))

  pub keep-none : (p : A → Bool) (xs : List A) → All (λ x. p x ≡ false) xs → keep p xs ≡ []
  keep-none p [] h = refl
  keep-none p (x ∷ xs) (e, h) = rw e (keep-none p xs h)

  pub All-keep {κ} : (P : A → Type κ) (p : A → Bool) (xs : List A) → All P xs → All P (keep p xs)
  All-keep P p [] h = tt
  All-keep P p (x ∷ xs) (px, h) = elim (Bool-cases (p x)) [
    | inl e ↦ rw e (px, All-keep P p xs h)
    | inr e ↦ rw e (All-keep P p xs h)
  ]

  -- A test that the kept rows pass anyway changes nothing.
  pub keep-keep :
      (p q : A → Bool) (xs : List A)
      → ((x : A) → p x ≡ true → q x ≡ true)
      → keep p (keep q xs) ≡ keep p xs
  keep-keep p q [] h = refl
  keep-keep p q (x ∷ xs) h = elim (Bool-cases (q x)) [
    | inl e ↦ rw e (elim (Bool-cases (p x)) [
      | inl e_p ↦ rw e_p (ap (◌∷◌ x) (keep-keep p q xs h))
      | inr e_p ↦ rw e_p (keep-keep p q xs h)
    ])
    | inr e ↦ elim (Bool-cases (p x)) [
      | inl e_p ↦ absurd (true-ne-false (q x) (h x e_p) e)
      | inr e_p ↦ rw (e, e_p) (keep-keep p q xs h)
    ]
  ]

  pub All-kept {κ μ} :
      (P : A → Type κ) (Q : A → Type μ) (p : A → Bool) (xs : List A)
      → ((x : A) → p x ≡ true → P x → Q x)
      → All P xs
      → All Q (keep p xs)
  All-kept P Q p [] f h = tt
  All-kept P Q p (x ∷ xs) f (px, h) = elim (Bool-cases (p x)) [
    | inl e ↦ rw e (f x e px, All-kept P Q p xs f h)
    | inr e ↦ rw e (All-kept P Q p xs f h)
  ]

  pub All-map {κ μ} :
      {P : A → Type κ} {Q : A → Type μ} (f : (x : A) → P x → Q x) (xs : List A)
      → All P xs
      → All Q xs
  All-map f [] h = tt
  All-map f (x ∷ xs) (px, h) = (f x px, All-map f xs h)

-- `key IN (…)`
abbrev pub has : ℕ → List ℕ → Bool
has n [] = false
has n (k ∷ ks) = n == k || has n ks

abbrev pub Ascending : List ℕ → Type 0
Ascending [] = Unit
Ascending (k ∷ ks) = All (λ j. k < j) ks × Ascending ks

pub has-filter :
    (n : ℕ) (q : ℕ → Bool) (ks : List ℕ) → has n ks ≡ true → q n ≡ true → has n (keep q ks) ≡ true
has-filter n q [] h hq = cc
has-filter n q (k ∷ ks) h hq = elim (Bool-cases (n == k)) [
  | inl e ↦ rw (subst (λ k. q k ≡ true) ((==_iff n k).0 e) hq, e) refl
  | inr e ↦ elim (Bool-cases (q k)) [
    | inl e_q ↦ rw (e_q, e) (has-filter n q ks (or_right _ _ e h) hq)
    | inr e_q ↦ rw e_q (has-filter n q ks (or_right _ _ e h) hq)
  ]
]

pub map-keep {ℓ κ} :
    {A : Type ℓ} {B : Type κ} (key : A → B) (p : B → Bool) (xs : List A)
    → map key (keep (λ x. p (key x)) xs) ≡ keep p (map key xs)
map-keep key p [] = refl
map-keep key p (x ∷ xs) = elim (Bool-cases (p (key x))) [
  | inl e ↦ rw e (ap (◌∷◌ (key x)) (map-keep key p xs))
  | inr e ↦ rw e (map-keep key p xs)
]

module _ {ℓ} {A : Type ℓ} (key : A → ℕ) where
  -- A key's rows are the first `n`, the one at `n`, and the later ones, which have greater keys.
  pub All-key {κ} : (P : ℕ → Type κ) (xs : List A) → All P (map key xs) → All (λ x. P (key x)) xs
  All-key P [] h = tt
  All-key P (x ∷ xs) (px, h) = (px, All-key P xs h)

pub keep-Ascending : (p : ℕ → Bool) (ks : List ℕ) → Ascending ks → Ascending (keep p ks)
keep-Ascending p [] h = tt
keep-Ascending p (k ∷ ks) (lo, h) = elim (Bool-cases (p k)) [
  | inl e ↦ rw e (All-keep (λ j. k < j) p ks lo, keep-Ascending p ks h)
  | inr e ↦ rw e (keep-Ascending p ks h)
]

pub Ascending-append :
    (ks js : List ℕ)
    → Ascending ks
    → Ascending js
    → All (λ k. All (λ j. k < j) js) ks
    → Ascending (ks ++ js)
Ascending-append [] js hk hj h = hj
Ascending-append (k ∷ ks) js (lo, hk) hj (h, hs) =
    (All-append (λ j. k < j) ks js lo h, Ascending-append ks js hk hj hs)

pub has-above : (n : ℕ) (ks : List ℕ) → All (λ k. n < k) ks → has n ks ≡ false
has-above n [] h = refl
has-above n (k ∷ ks) (lt, h) = rw (has-above n ks h) (ground arith)

pub has-below : (n : ℕ) (ks : List ℕ) → All (λ k. k < n) ks → has n ks ≡ false
has-below n [] h = refl
has-below n (k ∷ ks) (lt, h) = rw (has-below n ks h) (ground arith)

pub has-append : (n : ℕ) (ks js : List ℕ) → has n (ks ++ js) ≡ (has n ks || has n js)
has-append n [] js = refl
has-append n (k ∷ ks) js = rw (has-append n ks js) (ground arith)

module _ {ℓ} {A : Type ℓ} (key : A → ℕ) (p : A → Bool) where
  -- `key IN (SELECT key … WHERE p)` finds the rows that pass `p`, where no two share a key.
  abbrev Picks : List A → A → Type 0
  Picks xs x = has (key x) (map key (keep p xs)) ≡ p x

  Picks-cons :
      (x : A) (xs ys : List A)
      → All (λ k. key x < k) (map key ys)
      → All (Picks xs) ys
      → All (Picks (x ∷ xs)) ys
  Picks-cons x xs [] lo h = tt
  Picks-cons x xs (y ∷ ys) (lt, lo) (e, h) = (
    elim (Bool-cases (p x)) [ inl px ↦ rw px (ground arith) | inr px ↦ rw px e ],
    Picks-cons x xs ys lo h,
  )

  pub keep-above :
      (x : A) (xs : List A)
      → All (λ k. key x < k) (map key xs)
      → All (λ k. key x < k) (map key (keep p xs))
  keep-above x [] h = tt
  keep-above x (y ∷ ys) (lt, h) = elim (Bool-cases (p y)) [
    | inl e ↦ rw e (lt, keep-above x ys h)
    | inr e ↦ rw e (keep-above x ys h)
  ]

  pub has-keep : (xs : List A) → Ascending (map key xs) → All (Picks xs) xs
  has-keep [] h = tt
  has-keep (x ∷ xs) (lo, h) = (
    elim (Bool-cases (p x)) [
      | inl e ↦ rw e (ground arith)
      | inr e ↦ rw e (has-above (key x) (map key (keep p xs)) (keep-above x xs lo))
    ],
    Picks-cons x xs xs lo (has-keep xs h),
  )
