-- ===== src/Smtp/Data.antt =====
-- The DATA phase: `receive_data` of crates/rustmail-smtp/src/session.rs.
pub mod Bounds
use rustmail.Prelude.{
  ℕ, zero, suc, ◌+◌, ◌-◌, Bool, true, true, false, not, List, [], ◌∷◌, ◌++◌, length, is_empty, drop,
  ltb, ◌==◌, if◌then◌else◌,
}
use rustmail.Prelude.Text.{starts_with}
use rustmail.Smtp.Stream.{
  Bytes, Input, data_terminator, is_data_terminator, LineRead, line, too_long, failed, never,
  read_line, Drained, drained, drain_data,
}

-- `Ok(Some(_))` with the message's bytes, `Ok(None)` when the peer went away, `MessageTooLarge`, an
-- I/O error, or a phase that only its timeout ends. `out_of_fuel` is the model's.
pub data Received : Type 0 where
  message : Bytes → Received
  gone refused lost pending out_of_fuel : Received

unfoldable pub ends_with_newline : Bytes → Bool
ends_with_newline [] = false
ends_with_newline (c ∷ []) = c == b'\n'
ends_with_newline (c ∷ d ∷ bs) = ends_with_newline (d ∷ bs)

-- A line that begins with two dots loses the first.
unfoldable pub unstuffed : Bytes → Bytes
unstuffed b = if starts_with (b'.' ∷ b'.' ∷ []) b then drop 1 b else b

abbrev refuse : Drained × Input → Received × Input
refuse (drained, i) = (refused, i)
refuse (Drained.failed, i) = (lost, i)
refuse (Drained.never, i) = (pending, i)

-- How long a line the loop reads at most: what the message may still take, and the terminator.
abbrev pub budget : ℕ → Bytes → ℕ
budget most bytes = (most - length bytes) + length data_terminator

-- One round of the loop, from the line read on; `loop` is the loop again.
unfoldable pub after_read :
    (Bytes → Input → Received × Input) → ℕ → Bytes → LineRead × Input → Received × Input
after_read loop most bytes (too_long b, i) = refuse (drain_data (not (ends_with_newline b)) i)
after_read loop most bytes (failed, i) = (lost, i)
after_read loop most bytes (never, i) = (pending, i)
after_read loop most bytes (line b, i) =
    if is_empty b
    then (gone, i)
    else if is_data_terminator b
    then (message bytes, i)
    else if ltb most (length bytes + length b)
    then refuse (drain_data false i)
    else loop (bytes ++ unstuffed b) i

unfoldable pub receive_loop : ℕ → ℕ → Bytes → Input → Received × Input
receive_loop zero most bytes i = (out_of_fuel, i)
receive_loop (suc fuel) most bytes i =
    after_read (receive_loop fuel most) most bytes (read_line (budget most bytes) i)
