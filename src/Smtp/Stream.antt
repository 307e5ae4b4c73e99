-- ===== src/Smtp/Stream.antt =====
-- The reading half of a session's stream: `read_line_untimed`, `drain_data` and
-- `is_data_terminator` of crates/rustmail-smtp/src/session.rs.
-- A `BufReader` is the bytes that it holds, the reads that the peer's bytes will arrive in, and how
-- the stream ends: closed by the peer, failed, or silent for ever, when only a timeout ends the wait.
pub mod Chunks
pub mod Sizes
use rustmail.Prelude.{
  ℕ, zero, suc, ◌-◌, Bool, true, false, not, ◌&&◌, List, [], ◌∷◌, ◌++◌, length, is_empty, take, ltb,
  ◌==◌, if◌then◌else◌,
}

abbrev pub Bytes : Type 0
Bytes = List ℕ

pub data Ending : Type 0 where
  closed broken silent : Ending

pub record Input : Type 0 where
  pub buffer : Bytes
  pub incoming : List Bytes
  pub ending : Ending

-- The bytes up to and with the first newline, those behind it, and whether there is one: `position`
-- and the slices `[..taken]` and `[taken..]`.
pub record Split : Type 0 where
  pub taken : Bytes
  pub left : Bytes
  pub ended : Bool

abbrev grow : ℕ → Split → Split
grow b s = record s { taken = b ∷ s.taken }

unfoldable pub split_line : Bytes → Split
split_line [] = record { taken = []; left = []; ended = false }
split_line (b ∷ bs) =
    if b == b'\n'
    then record { taken = b ∷ []; left = bs; ended = true }
    else grow b (split_line bs)

-- `data_terminator` is `DATA_TERMINATOR`.
abbrev pub data_terminator : Bytes
data_terminator = b'.' ∷ b'\r' ∷ b'\n' ∷ []

-- `line` without one trailing "\r\n", or else one trailing "\n", is ".".
unfoldable pub is_data_terminator : Bytes → Bool
is_data_terminator (c ∷ []) = c == b'.'
is_data_terminator (c ∷ d ∷ []) = c == b'.' && d == b'\n'
is_data_terminator (c ∷ d ∷ e ∷ []) = c == b'.' && d == b'\r' && e == b'\n'
is_data_terminator _ = false

-- What `read_line_untimed` ends in: `Ok` with the line read, `Err(LineTooLong)` with the bytes taken
-- so far, `Err(Io)`, or a read that never completes.
pub data LineRead : Type 0 where
  line too_long : Bytes → LineRead
  failed never : LineRead

-- One round of the loop on the bytes that the buffer holds.
pub data Scan : Type 0 where
  found long : Bytes → Bytes → Scan
  more : Bytes → Scan

unfoldable pub scan : ℕ → Bytes → Bytes → Scan
scan most buf available =
    if is_empty available
    then more buf
    else let s = split_line available in
      let grown = buf ++ s.taken in
      if ltb most (length grown)
      then long grown s.left
      else if s.ended
      then found grown s.left
      else more grown

-- At the end of the stream an empty buffer reads as 0 bytes, and a line without a newline as a line.
abbrev pub at_end : Ending → Bytes → LineRead
at_end closed buf = line buf
at_end broken buf = failed
at_end silent buf = never

unfoldable pub read_from : ℕ → Bytes → Bytes → List Bytes → Ending → LineRead × Input
read_from most buf available [] e = elim (scan most buf available) [
  | found l left ↦ (line l, record { buffer = left; incoming = []; ending = e })
  | long l left ↦ (too_long l, record { buffer = left; incoming = []; ending = e })
  | more l ↦ (at_end e l, record { buffer = []; incoming = []; ending = e })
]
read_from most buf available (chunk ∷ chunks) e = elim (scan most buf available) [
  | found l left ↦ (line l, record { buffer = left; incoming = chunk ∷ chunks; ending = e })
  | long l left ↦ (too_long l, record { buffer = left; incoming = chunk ∷ chunks; ending = e })
  | more l ↦ read_from most l chunk chunks e
]

unfoldable pub read_line : ℕ → Input → LineRead × Input
unfolding read_from scan split_line
read_line most i = read_from most [] i.buffer i.incoming i.ending

-- `drain_data`
pub data DrainScan : Type 0 where
  done : Bytes → DrainScan
  more : Bool → Bytes → DrainScan

-- The rounds of the loop on the bytes that the buffer holds, `fuel` of them at most.
unfoldable pub drain_scan : ℕ → Bool → Bytes → Bytes → DrainScan
drain_scan zero mid_line head available = more mid_line head
drain_scan (suc fuel) mid_line head available =
    let s = split_line available in
    let head' = head ++ take (length data_terminator - length head) s.taken in
    let next_line = drain_scan fuel false [] s.left in
    let same_line = drain_scan fuel mid_line head' s.left in
    if is_empty available
    then more mid_line head
    else if s.ended
    then (if not mid_line && is_data_terminator head' then done s.left else next_line)
    else same_line

pub data Drained : Type 0 where
  drained failed never : Drained

-- A peer that goes away before the dot is an error.
abbrev pub drain_end : Ending → Drained
drain_end closed = Drained.failed
drain_end broken = Drained.failed
drain_end silent = Drained.never

unfoldable pub drain_from : Bool → Bytes → Bytes → List Bytes → Ending → Drained × Input
drain_from mid_line head available [] e =
    elim (drain_scan (suc (length available)) mid_line head available) [
      | done left ↦ (drained, record { buffer = left; incoming = []; ending = e })
      | more m h ↦ (drain_end e, record { buffer = []; incoming = []; ending = e })
    ]
drain_from mid_line head available (chunk ∷ chunks) e =
    elim (drain_scan (suc (length available)) mid_line head available) [
      | done left ↦ (drained, record { buffer = left; incoming = chunk ∷ chunks; ending = e })
      | more m h ↦ drain_from m h chunk chunks e
    ]

unfoldable pub drain_data : Bool → Input → Drained × Input
unfolding drain_from drain_scan split_line is_data_terminator
drain_data mid_line i = drain_from mid_line [] i.buffer i.incoming i.ending
