-- ===== src/Smtp/Data/Bounds.antt =====
-- A message that DATA returns fits the limit, and the loop of the phase ends.
use rustmail.Prelude.{
  ℕ, zero, suc, ◌+◌, ◌≤◌, ◌<◌, ◌≢◌, false, not, [], ◌∷◌, ◌++◌, length, length-append, ltb, inl, inr,
  Bool-cases, arith,
}
use rustmail.Smtp.Stream.{
  Bytes, Input, is_data_terminator, LineRead, line, too_long, failed, never, Drained, drained,
  read_line, drain_data,
}
use rustmail.Smtp.Stream.Sizes.{size, Accounted, read_line_sizes, drain_data_size}
use rustmail.Smtp.Data.{
  Received, message, out_of_fuel, ends_with_newline, unstuffed, refuse, budget, after_read,
  receive_loop,
}

pub length-unstuffed : (b : Bytes) → length (unstuffed b) ≤ length b
unfolding unstuffed
length-unstuffed [] = ground arith
length-unstuffed (c ∷ b) = ground arith

-- A DATA phase ends in a message within the limit, or in none.
abbrev pub Fits : ℕ → Received → Type 0
Fits most (message d) = length d ≤ most
Fits most _ = Unit

refuse-Fits : (most : ℕ) (r : Drained × Input) → Fits most (refuse r).0
refuse-Fits most (drained, i) = tt
refuse-Fits most (Drained.failed, i) = tt
refuse-Fits most (Drained.never, i) = tt

after_read-Fits :
    (loop : Bytes → Input → Received × Input) (most : ℕ) (bytes : Bytes) (r : LineRead × Input)
    → ((b : Bytes) (i : Input) → length b ≤ most → Fits most (loop b i).0)
    → length bytes ≤ most
    → Fits most (after_read loop most bytes r).0
unfolding after_read
after_read-Fits loop most bytes (too_long b, i) ih h =
    refuse-Fits most (drain_data (not (ends_with_newline b)) i)
after_read-Fits loop most bytes (failed, i) ih h = tt
after_read-Fits loop most bytes (never, i) ih h = tt
after_read-Fits loop most bytes (line b, i) ih h = ground (
  arith,
  ih (bytes ++ unstuffed b) i,
  length-append bytes (unstuffed b),
  length-unstuffed b,
  refuse-Fits most (drain_data false i),
)

-- If what was collected so far holds at most `most` bytes, so does a message that DATA returns, whatever the
-- peer sends and however it arrives.
pub receive_loop-Fits :
    (fuel most : ℕ) (bytes : Bytes) (i : Input)
    → length bytes ≤ most
    → Fits most (receive_loop fuel most bytes i).0
unfolding receive_loop
receive_loop-Fits zero most bytes i h = tt
receive_loop-Fits (suc fuel) most bytes i h =
    after_read-Fits (receive_loop fuel most) most bytes (read_line (budget most bytes) i)
      (receive_loop-Fits fuel most) h

-- The loop ended by itself, with no byte more than it had.
abbrev pub Ends : ℕ → Received × Input → Type 0
Ends n (r, i) = (r ≢ out_of_fuel) × (size i ≤ n)

refuse-Ends : (n : ℕ) (r : Drained × Input) → size r.1 ≤ n → Ends n (refuse r)
refuse-Ends n (drained, i) h = (λ e. cc, h)
refuse-Ends n (Drained.failed, i) h = (λ e. cc, h)
refuse-Ends n (Drained.never, i) h = (λ e. cc, h)

Ends-mono : {m n : ℕ} (r : Received × Input) → Ends m r → m ≤ n → Ends n r
Ends-mono (r, i) e h = (e.0, omega arith)

after_read-Ends :
    (loop : Bytes → Input → Received × Input) (n most : ℕ) (bytes : Bytes) (r : LineRead × Input)
    → ((b : Bytes) (i : Input) → size i < n → Ends (size i) (loop b i))
    → Accounted n r
    → Ends n (after_read loop most bytes r)
unfolding after_read
after_read-Ends loop n most bytes (too_long b, i) ih h =
    let mid = not (ends_with_newline b) in
    refuse-Ends n (drain_data mid i) (omega (arith, drain_data_size mid i))
after_read-Ends loop n most bytes (failed, i) ih h = (λ e. cc, h)
after_read-Ends loop n most bytes (never, i) ih h = (λ e. cc, h)
after_read-Ends loop n most bytes (line [], i) ih h = (λ e. cc, omega arith)
after_read-Ends loop n most bytes (line (c ∷ b), i) ih h =
    elim (Bool-cases (is_data_terminator (c ∷ b))) [
      | inl t ↦ rw t (λ e. cc, omega arith)
      | inr f ↦ rw f (elim (Bool-cases (ltb most (length bytes + length (c ∷ b)))) [
        | inl over ↦
            rw over (refuse-Ends n (drain_data false i) (omega (arith, drain_data_size false i)))
        | inr fits ↦
            rw fits
              (Ends-mono (loop (bytes ++ unstuffed (c ∷ b)) i) (ih _ i (omega arith)) (omega arith))
      ])
    ]

-- With more fuel than there are bytes to come, the DATA phase ends by itself, and leaves no more bytes
-- than there were.
pub receive_loop-Ends :
    (fuel most : ℕ) (bytes : Bytes) (i : Input)
    → size i < fuel
    → Ends (size i) (receive_loop fuel most bytes i)
unfolding receive_loop
receive_loop-Ends zero most bytes i h = absurd (omega arith)
receive_loop-Ends (suc fuel) most bytes i h =
    after_read-Ends (receive_loop fuel most) (size i) most bytes (read_line (budget most bytes) i)
      (λ b j k. receive_loop-Ends fuel most b j (omega arith))
      (read_line_sizes (budget most bytes) i)
