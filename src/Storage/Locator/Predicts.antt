-- ===== src/Storage/Locator/Predicts.antt =====
-- Bounds on the length that is predicted for a base64 body.
use rustmail.Prelude.Text.{Text}
use rustmail.Prelude.{
  ℕ, suc, ◌+◌, ◌*◌, ◌%◌, ◌≡◌, ◌≤◌, ◌<◌, ◌||◌, some, [], ◌∷◌, length, ◌==◌, arith, if◌then◌else◌,
  Bool-cases, inl, inr, ==_iff,
}
use rustmail.Storage.Locator.{is_base64_char, flushed, predicted_from, predicted_base64_len}
use mathlib.Core.Option.{some-injective}

-- `bytes` of `chars` characters, of which `pending` are not decoded yet.
abbrev Within : ℕ → ℕ → ℕ → Type 0
Within decoded pending chars = (4 * decoded + 3 * pending ≤ 3 * chars) × (pending < 4)

flushed-Within :
    (decoded pending chars : ℕ)
    → Within decoded pending chars
    → Within (decoded + flushed pending) 0 (suc chars)
flushed-Within decoded pending chars h = ground arith

counted-Within :
    (decoded pending chars : ℕ)
    → Within decoded pending chars
    → Within
        (if (pending + 1) % 4 == 0 then decoded + 3 else decoded)
        ((pending + 1) % 4)
        (suc chars)
counted-Within decoded pending chars h = elim (Bool-cases ((pending + 1) % 4 == 0)) [
  | inl e ↦ rw e (omega (arith, h, (==_iff ((pending + 1) % 4) 0).0 e))
  | inr e ↦ rw e (omega (arith, h))
]

predicted_from-Within :
    (body : Text) (decoded pending chars n : ℕ)
    → Within decoded pending chars
    → predicted_from body decoded pending ≡ some n
    → 4 * n ≤ 3 * (chars + length body)
unfolding predicted_from
predicted_from-Within [] decoded pending chars n h e = omega (arith, h, some-injective decoded n e)
predicted_from-Within (c ∷ body) decoded pending chars n h e =
    elim (Bool-cases (is_base64_char c)) [
      | inl char ↦
          let e' = rw char at e in
          omega (
            arith,
            predicted_from-Within body _ _ (suc chars) n (counted-Within decoded pending chars h)
                e',
          )
      | inr not_char ↦ elim (Bool-cases (c == b'=')) [
        | inl padding ↦
            let e' = rw (not_char, padding) at e in
            omega (
              arith,
              predicted_from-Within body _ _ (suc chars) n (flushed-Within decoded pending chars h)
                  e',
            )
        | inr not_padding ↦
            elim (Bool-cases (c == b' ' || c == b'\t' || c == b'\r' || c == b'\n')) [
              | inl space ↦
                  let e' = rw (not_char, not_padding, space) at e in
                  omega (
                    arith,
                    predicted_from-Within body decoded pending (suc chars) n
                        (later decoded pending chars h) e',
                  )
              | inr not_space ↦ let e' = rw (not_char, not_padding, not_space) at e in cc
            ]
      ]
    ]
  where
    later : (d p k : ℕ) → Within d p k → Within d p (suc k)
    later d p k h = omega (arith, h)

-- A predicted length is at most three quarters of the body's.
pub predicted_base64_len-bound :
    (body : Text) (n : ℕ) → predicted_base64_len body ≡ some n → 4 * n ≤ 3 * length body
unfolding predicted_base64_len
predicted_base64_len-bound body n e =
    omega (arith, predicted_from-Within body 0 0 0 n (omega arith, omega arith) e)
