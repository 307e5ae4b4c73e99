-- ===== src/Smtp/Stream/Chunks.antt =====
-- Reading a line does not depend on how the peer's bytes were split into reads.
use mathlib.Core.List.{append-nil, append_assoc}
use rustmail.Prelude.{
  ℕ, ◌≤◌, ◌<◌, ◌≡◌, refl, sym, ◌∙◌, true, false, List, [], ◌∷◌, ◌++◌, length, length-append, ltb,
  ◌==◌, inl, inr, ◌⊎◌, Bool-cases, arith, if◌then◌else◌,
}
use rustmail.Smtp.Stream.{
  Bytes, Ending, closed, broken, silent, Input, Split, split_line, LineRead, line, too_long, failed,
  never, Scan, found, long, more, scan, at_end, read_from, read_line,
}

abbrev pub joined : List Bytes → Bytes
joined [] = []
joined (c ∷ cs) = c ++ joined cs

-- Every byte that is still to come.
abbrev pub whole : Input → Bytes
whole i = i.buffer ++ joined i.incoming

split_line_ended :
    (a b : Bytes)
    → (split_line a).ended ≡ true
    → split_line (a ++ b)
      ≡ record { taken = (split_line a).taken; left = (split_line a).left ++ b; ended = true }
unfolding split_line
split_line_ended [] b h = cc
split_line_ended (x ∷ a) b h = elim (Bool-cases (x == b'\n')) [
  | inl e ↦ rw e
  | inr e ↦ rw e (ground (arith, split_line_ended a b))
]

split_line_open :
    (a : Bytes)
    → (split_line a).ended ≡ false
    → ((split_line a).taken ≡ a) × ((split_line a).left ≡ [])
unfolding split_line
split_line_open [] h = (refl, refl)
split_line_open (x ∷ a) h = ground (arith, split_line_open a)

split_line_on :
    (a b : Bytes)
    → (split_line a).ended ≡ false
    → split_line (a ++ b) ≡ record {
      taken = a ++ (split_line b).taken;
      left = (split_line b).left;
      ended = (split_line b).ended;
    }
unfolding split_line
split_line_on [] b h = refl
split_line_on (x ∷ a) b h = ground (arith, split_line_on a b)

-- What a read says of the stream as one run of bytes: the line and the bytes behind it, or a refusal.
pub data LineSpec : Type 0 where
  read : Bytes → Bytes → LineSpec
  refused lost pending : LineSpec

abbrev end_spec : Ending → Bytes → LineSpec
end_spec closed buf = read buf []
end_spec broken buf = lost
end_spec silent buf = pending

abbrev choose : ℕ → Bytes → Split → Ending → LineSpec
choose most buf s e =
    if ltb most (length (buf ++ s.taken))
    then refused
    else if s.ended
    then read (buf ++ s.taken) s.left
    else end_spec e (buf ++ s.taken)

-- The line is the run up to the first newline, refused if it is longer than `most`.
pub line_spec : ℕ → Bytes → Ending → LineSpec
line_spec most flat e = choose most [] (split_line flat) e

abbrev pub view : LineRead × Input → LineSpec
view (line b, i) = read b (whole i)
view (too_long b, i) = refused
view (failed, i) = lost
view (never, i) = pending

choose_long :
    (most : ℕ) (buf : Bytes) (s : Split) (e : Ending)
    → ltb most (length (buf ++ s.taken)) ≡ true
    → choose most buf s e ≡ refused
choose_long most buf s e h = rw h

-- The bytes at hand hold the whole line.
choose_here :
    (most : ℕ) (buf a b : Bytes) (e : Ending)
    → (split_line a).ended ≡ true
    → choose most buf (split_line (a ++ b)) e ≡ (
        if ltb most (length (buf ++ (split_line a).taken))
        then refused
        else read (buf ++ (split_line a).taken) ((split_line a).left ++ b))
choose_here most buf a b e h = rw (split_line_ended a b h)

choose_on :
    (most : ℕ) (buf a b : Bytes) (e : Ending)
    → (split_line a).ended ≡ false
    → choose most buf (split_line (a ++ b)) e ≡ choose most (buf ++ a) (split_line b) e
choose_on most buf a b e h = rw (split_line_on a b h) (simp (append_assoc))

choose_over :
    (most : ℕ) (buf a : Bytes) (s : Split) (e : Ending)
    → most < length (buf ++ a)
    → choose most (buf ++ a) s e ≡ refused
choose_over most buf a s e h =
    choose_long most (buf ++ a) s e (ground (arith, length-append (buf ++ a) s.taken))

split_line_nil : split_line [] ≡ record { taken = []; left = []; ended = false }
unfolding split_line
split_line_nil = refl

abbrev follow : ℕ → Scan → Bytes → Ending → LineSpec
follow most (found l left) rest e = read l (left ++ rest)
follow most (long l left) rest e = refused
follow most (more l) rest e = choose most l (split_line rest) e

-- One round on the bytes at hand, against the whole run of bytes.
scan_lem :
    (most : ℕ) (buf a b : Bytes) (e : Ending)
    → choose most buf (split_line (a ++ b)) e ≡ follow most (scan most buf a) b e
unfolding scan
scan_lem most buf [] b e = refl
scan_lem most buf (x ∷ a) b e = elim (Bool-cases (split_line (x ∷ a)).ended) [
  | inl t ↦ choose_here most buf (x ∷ a) b e t ∙ ground (arith, t)
  | inr f ↦
      choose_on most buf (x ∷ a) b e f
      ∙ rw ((split_line_open (x ∷ a) f).0, f)
          (ground (arith, choose_over most buf (x ∷ a) (split_line b) e))
]

end_lem :
    (most : ℕ) (buf : Bytes) (e : Ending)
    → length buf ≤ most
    → choose most buf (split_line []) e
      ≡ view (at_end e buf, record { buffer = []; incoming = []; ending = e })
end_lem most buf closed h = rw (split_line_nil, append-nil) (ground arith)
end_lem most buf broken h = rw (split_line_nil, append-nil) (ground arith)
end_lem most buf silent h = rw (split_line_nil, append-nil) (ground arith)

scan_bound :
    (most : ℕ) (buf a l : Bytes) → length buf ≤ most → scan most buf a ≡ more l → length l ≤ most
unfolding scan
scan_bound most buf [] l h e = ground arith
scan_bound most buf (x ∷ a) l h e = ground arith

pub Scan-cases :
    (s : Scan)
    → ((l : Bytes) × (left : Bytes) × (s ≡ found l left))
      ⊎ (((l : Bytes) × (left : Bytes) × (s ≡ long l left)) ⊎ ((l : Bytes) × (s ≡ more l)))
Scan-cases (found l left) = inl (l, left, refl)
Scan-cases (long l left) = inr (inl (l, left, refl))
Scan-cases (more l) = inr (inr (l, refl))

read_from_lem :
    (most : ℕ) (buf available : Bytes) (chunks : List Bytes) (e : Ending)
    → length buf ≤ most
    → view (read_from most buf available chunks e)
      ≡ choose most buf (split_line (available ++ joined chunks)) e
unfolding read_from
read_from_lem most buf available [] e h =
    rw (scan_lem most buf available [] e) (elim (Scan-cases (scan most buf available)) [
      | inl (l, left, p) ↦ rw (p, read_from)
      | inr (inl (l, left, p)) ↦ rw (p, read_from)
      | inr (inr (l, p)) ↦
          rw (p, read_from) (sym (end_lem most l e (scan_bound most buf available l h p)))
    ])
read_from_lem most buf available (chunk ∷ chunks) e h =
    rw (scan_lem most buf available (chunk ++ joined chunks) e)
      (elim (Scan-cases (scan most buf available)) [
        | inl (l, left, p) ↦ rw (p, read_from)
        | inr (inl (l, left, p)) ↦ rw (p, read_from)
        | inr (inr (l, p)) ↦
            rw (p, read_from)
              (read_from_lem most l chunk chunks e (scan_bound most buf available l h p))
      ])

-- Whatever the reads that a line arrives in, the session sees the run up to the first newline (or up
-- to the end of the stream), leaves exactly the bytes behind it, and refuses it exactly when it is
-- longer than the limit.
pub view-read_line :
    (most : ℕ) (i : Input) → view (read_line most i) ≡ line_spec most (whole i) i.ending
unfolding read_line line_spec
view-read_line most i = read_from_lem most [] i.buffer i.incoming i.ending (omega arith)
