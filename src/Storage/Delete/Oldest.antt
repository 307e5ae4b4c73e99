-- ===== src/Storage/Delete/Oldest.antt =====
-- The rows up to the threshold of `trim_to_max` are the oldest ones, and the rest the newest `n`.
use mathlib.Core.Path.{subst}
use mathlib.Core.Option.{some-injective}
use rustmail.Prelude.{
  ℕ, zero, suc, ◌-◌, ◌≡◌, ◌<◌, ◌≤◌, ◌⊎◌, refl, sym, ap, ◌∙◌, Bool, true, false, not, some, List, [],
  ◌∷◌, ◌++◌, length, length-append, take, drop, get_elem?, All, All-append, All-map, All-key,
  Ascending, keep, without, keep-all, keep-none, newest_first, inl, inr, arith, leb,
}
use rustmail.Storage.Schema.{MessageRow, seqs}

abbrev pub at_most : ℕ → MessageRow → Bool
at_most t m = leb m.seq t

pub get_elem?-last {ℓ} :
    {A : Type ℓ} (xs : List A) (y t : A) (n : ℕ)
    → get_elem? (xs ++ y ∷ []) n ≡ some t
    → ((n < length xs) × (get_elem? xs n ≡ some t)) ⊎ ((n ≡ length xs) × (t ≡ y))
get_elem?-last [] y t zero e = inr (refl, cc)
get_elem?-last [] y t (suc n) e = cc
get_elem?-last (x ∷ xs) y t zero e = inl (omega arith, e)
get_elem?-last (x ∷ xs) y t (suc n) e = elim (get_elem?-last xs y t n e) [
  | inl (lt, h) ↦ inl (omega arith, h)
  | inr (at, h) ↦ inr (ap suc at, h)
]

pub get_elem?-All {ℓ κ} :
    {A : Type ℓ} (P : A → Type κ) (xs : List A) (n : ℕ) (t : A)
    → All P xs
    → get_elem? xs n ≡ some t
    → P t
get_elem?-All P [] n t h e = cc
get_elem?-All P (x ∷ xs) zero t (px, h) e = subst P (some-injective x t e) px
get_elem?-All P (x ∷ xs) (suc n) t (px, h) e = get_elem?-All P xs n t h e

pub newest_first-All {ℓ κ} :
    {A : Type ℓ} (P : A → Type κ) (xs : List A) → All P xs → All P (newest_first xs)
newest_first-All P [] h = tt
newest_first-All P (x ∷ xs) (px, h) =
    All-append P (newest_first xs) (x ∷ []) (newest_first-All P xs h) (px, tt)

pub length-newest_first {ℓ} : {A : Type ℓ} (xs : List A) → length (newest_first xs) ≡ length xs
length-newest_first [] = refl
length-newest_first (x ∷ xs) =
    length-append (newest_first xs) (x ∷ []) ∙ omega (arith, length-newest_first xs)

pub length-seqs : (ms : List MessageRow) → length (seqs ms) ≡ length ms
length-seqs [] = refl
length-seqs (m ∷ ms) = ap suc (length-seqs ms)

at_most-true : (t : ℕ) (m : MessageRow) → m.seq ≤ t → at_most t m ≡ true
at_most-true t m h = ground arith

at_most-false : (t : ℕ) (m : MessageRow) → t < m.seq → at_most t m ≡ false
at_most-false t m h = ground arith

abbrev pub Splits : List MessageRow → ℕ → ℕ → Type 0
Splits ms n t =
    (keep (at_most t) ms ≡ take (length ms - n) ms)
    × (without (at_most t) ms ≡ drop (length ms - n) ms)

take-one : (n : ℕ) (x : MessageRow) (xs : List MessageRow) → n ≡ 1 → take n (x ∷ xs) ≡ x ∷ []
take-one n x xs e = rw e refl

drop-one : (n : ℕ) (x : MessageRow) (xs : List MessageRow) → n ≡ 1 → drop n (x ∷ xs) ≡ xs
drop-one n x xs e = rw e refl

pub at_most-Splits :
    (ms : List MessageRow) (n t : ℕ)
    → Ascending (seqs ms)
    → get_elem? (newest_first (seqs ms)) n ≡ some t
    → Splits ms n t
at_most-Splits [] n t h e = absurd (cc)
at_most-Splits (m ∷ ms) n t (lo, h) e = elim (get_elem?-last (newest_first (seqs ms)) m.seq t n e) [
  | inl (lt, e_t) ↦
      let later = get_elem?-All (λ k. m.seq < k) _ n t (newest_first-All _ (seqs ms) lo) e_t in
      let (kept, left) = at_most-Splits ms n t h e_t in
      let size = length-newest_first (seqs ms) ∙ length-seqs ms in
      rw
        (
          at_most-true t m (omega arith),
          first_of (length ms) n (omega (arith, lt, size)),
          kept,
          left,
        )
        (refl, refl)
  | inr (at, e_t) ↦
      let size = at ∙ length-newest_first (seqs ms) ∙ length-seqs ms in
      let above =
        All-map (λ (r : MessageRow) lt. at_most-false t r (subst (λ k. k < r.seq) (sym e_t) lt)) ms
          (All-key (λ (r : MessageRow). r.seq) (λ k. m.seq < k) ms lo) in
      rw
        (
          at_most-true t m (omega (arith, e_t)),
          keep-none (at_most t) ms above,
          keep-all (λ r. not (at_most t r)) ms (All-map (λ r e. ap not e) ms above),
        )
        (sym (take-one _ m ms (omega (arith, size))), sym (drop-one _ m ms (omega (arith, size))))
]
  where
    first_of : (k n : ℕ) → n < k → suc k - n ≡ suc (k - n)
    first_of k n lt = omega arith
