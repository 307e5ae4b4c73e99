-- ===== src/Smtp/Stream/Sizes.antt =====
-- How many bytes a read or a drain leaves: the measure of every loop over the stream.
use rustmail.Prelude.{
  ℕ, zero, suc, ◌+◌, ◌-◌, ◌≤◌, ◌≡◌, refl, ap, ◌⊎◌, Bool, false, List, [], ◌∷◌, ◌++◌, length,
  length-append, take, inl, inr, arith,
}
use rustmail.Smtp.Stream.{
  Bytes, data_terminator, Ending, closed, broken, silent, Input, split_line, LineRead, line,
  too_long, failed, never, Scan, found, long, more, scan, at_end, read_from, read_line, DrainScan,
  done, drain_scan, drain_from, drain_data,
}
use rustmail.Smtp.Stream.Chunks.{joined, whole, Scan-cases}

abbrev pub size : Input → ℕ
size i = length (whole i)

split_line_sizes : (a : Bytes) → length (split_line a).taken + length (split_line a).left ≡ length a
unfolding split_line
split_line_sizes [] = refl
split_line_sizes (x ∷ a) = ground (arith, split_line_sizes a)

abbrev scanned : Scan → ℕ
scanned (found l left) = length l + length left
scanned (long l left) = length l + length left
scanned (more l) = length l

split_line_open_size : (a : Bytes) → (split_line a).ended ≡ false → (split_line a).left ≡ []
unfolding split_line
split_line_open_size [] h = refl
split_line_open_size (x ∷ a) h = ground (arith, split_line_open_size a)

scanned_lem : (most : ℕ) (buf a : Bytes) → scanned (scan most buf a) ≡ length buf + length a
unfolding scan
scanned_lem most buf [] = omega arith
scanned_lem most buf (x ∷ a) =
    let size = split_line_sizes (x ∷ a) in
    let open_size = split_line_open_size (x ∷ a) in
    ground (arith, size, open_size, length-append buf (split_line (x ∷ a)).taken)

-- What a read accounts for: the line it returns, and what it leaves.
abbrev pub Accounted : ℕ → LineRead × Input → Type 0
Accounted n (line b, i) = length b + size i ≡ n
Accounted n (too_long b, i) = size i ≤ n
Accounted n (failed, i) = size i ≤ n
Accounted n (never, i) = size i ≤ n

at_end_sizes :
    (e : Ending) (l : Bytes) {n : ℕ}
    → length l ≡ n
    → Accounted n (at_end e l, record { buffer = []; incoming = []; ending = e })
at_end_sizes closed l h = omega arith
at_end_sizes broken l h = omega arith
at_end_sizes silent l h = omega arith

Accounted-eq : {m n : ℕ} → m ≡ n → (r : LineRead × Input) → Accounted m r → Accounted n r
Accounted-eq e (line b, i) h = omega arith
Accounted-eq e (too_long b, i) h = omega arith
Accounted-eq e (failed, i) h = omega arith
Accounted-eq e (never, i) h = omega arith

read_from_sizes :
    (most : ℕ) (buf a : Bytes) (chunks : List Bytes) (e : Ending)
    → Accounted (length buf + length a + length (joined chunks)) (read_from most buf a chunks e)
unfolding read_from
read_from_sizes most buf a [] e = elim (Scan-cases (scan most buf a)) [
  | inl (l, left, p) ↦
      rw (p, read_from) (omega (arith, scanned_lem most buf a, ap scanned p, length-append left []))
  | inr (inl (l, left, p)) ↦
      rw (p, read_from) (omega (arith, scanned_lem most buf a, ap scanned p, length-append left []))
  | inr (inr (l, p)) ↦
      rw (p, read_from) (at_end_sizes e l (omega (arith, scanned_lem most buf a, ap scanned p)))
]
read_from_sizes most buf a (chunk ∷ chunks) e = elim (Scan-cases (scan most buf a)) [
  | inl (l, left, p) ↦
      rw (p, read_from)
        (omega (
          arith,
          scanned_lem most buf a,
          ap scanned p,
          length-append left (chunk ++ joined chunks),
        ))
  | inr (inl (l, left, p)) ↦
      rw (p, read_from)
        (omega (
          arith,
          scanned_lem most buf a,
          ap scanned p,
          length-append left (chunk ++ joined chunks),
        ))
  | inr (inr (l, p)) ↦
      rw (p, read_from)
        (Accounted-eq
          (omega (arith, scanned_lem most buf a, ap scanned p, length-append chunk (joined chunks)))
          _ (read_from_sizes most l chunk chunks e))
]

-- A line that is not empty takes a byte at least, and no read adds any.
pub read_line_sizes : (most : ℕ) (i : Input) → Accounted (size i) (read_line most i)
unfolding read_line
read_line_sizes most i =
    Accounted-eq (omega (arith, length-append i.buffer (joined i.incoming))) _
      (read_from_sizes most [] i.buffer i.incoming i.ending)

drain_scan_size :
    (fuel : ℕ) (mid : Bool) (head a left : Bytes)
    → drain_scan fuel mid head a ≡ done left
    → length left ≤ length a
unfolding drain_scan
drain_scan_size zero mid head a left h = cc
drain_scan_size (suc fuel) mid head a left h =
    let s = split_line a in
    let head' = head ++ take (length data_terminator - length head) s.taken in
    ground (
      arith,
      split_line_sizes a,
      drain_scan_size fuel false [] s.left left,
      drain_scan_size fuel mid head' s.left left,
    )

DrainScan-cases :
    (s : DrainScan)
    → ((left : Bytes) × (s ≡ done left)) ⊎ ((m : Bool) × (h : Bytes) × (s ≡ DrainScan.more m h))
DrainScan-cases (done left) = inl (left, refl)
DrainScan-cases (DrainScan.more m h) = inr (m, h, refl)

drain_from_size :
    (mid : Bool) (head a : Bytes) (chunks : List Bytes) (e : Ending)
    → size (drain_from mid head a chunks e).1 ≤ length a + length (joined chunks)
unfolding drain_from
drain_from_size mid head a [] e = elim (DrainScan-cases (drain_scan (suc (length a)) mid head a)) [
  | inl (left, p) ↦
      rw (p, drain_from)
        (omega (arith, drain_scan_size (suc (length a)) mid head a left p, length-append left []))
  | inr (m, h, p) ↦ rw (p, drain_from) (omega arith)
]
drain_from_size mid head a (chunk ∷ chunks) e =
    elim (DrainScan-cases (drain_scan (suc (length a)) mid head a)) [
      | inl (left, p) ↦
          rw (p, drain_from)
            (omega (
              arith,
              drain_scan_size (suc (length a)) mid head a left p,
              length-append left (chunk ++ joined chunks),
            ))
      | inr (m, h, p) ↦
          rw (p, drain_from)
            (omega (arith, drain_from_size m h chunk chunks e, length-append chunk (joined chunks)))
    ]

-- A drain adds no byte.
pub drain_data_size : (mid : Bool) (i : Input) → size (drain_data mid i).1 ≤ size i
unfolding drain_data
drain_data_size mid i = omega (
  arith,
  drain_from_size mid [] i.buffer i.incoming i.ending,
  length-append i.buffer (joined i.incoming),
)
