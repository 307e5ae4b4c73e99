-- ===== src/Storage/Read/Pages.antt =====
-- A page that starts at a cursor is the page that an offset behind that message gives.
use rustmail.Prelude.{
  ℕ, zero, suc, ◌≡◌, ◌<◌, ◌≤◌, refl, sym, ap, ◌∙◌, Bool, true, false, ◌&&◌, some, List, [], ◌∷◌,
  ◌++◌, length, length-append, drop, get_elem?, All, All-key, All-map, Ascending, keep, keep-none,
  keep-All, newest_first, ltb, lt→ltb, inl, inr, arith, Bool-cases, ℤ, pos, limited, skipping,
  keep-above,
}
use rustmail.Storage.Schema.{MessageRow, Db, seqs}
use rustmail.Storage.Delete.Oldest.{get_elem?-last, newest_first-All, get_elem?-All}
use rustmail.Storage.Read.{MessageFilter, offset, before, passes, list_statement}
use rustmail.Storage.WellFormed.{WellFormed}

-- The messages that pass a filter, newest first.
abbrev pub listing : MessageFilter → Db → List MessageRow
listing f d = newest_first (keep (passes f d) d.messages)

keep-and :
    (p q : MessageRow → Bool) (ms : List MessageRow)
    → keep (λ m. p m && q m) ms ≡ keep q (keep p ms)
keep-and p q [] = refl
keep-and p q (m ∷ ms) = elim (Bool-cases (p m)) [
  | inl e ↦ rw e (elim (Bool-cases (q m)) [
    | inl e_q ↦ rw e_q (ap (◌∷◌ m) (keep-and p q ms))
    | inr e_q ↦ rw e_q (keep-and p q ms)
  ])
  | inr e ↦ rw e (keep-and p q ms)
]

keep-Ascending-seqs :
    (p : MessageRow → Bool) (ms : List MessageRow)
    → Ascending (seqs ms)
    → Ascending (seqs (keep p ms))
keep-Ascending-seqs p [] h = tt
keep-Ascending-seqs p (m ∷ ms) (lo, h) = elim (Bool-cases (p m)) [
  | inl e ↦ rw e (keep-above (λ (m : MessageRow). m.seq) p m ms lo, keep-Ascending-seqs p ms h)
  | inr e ↦ rw e (keep-Ascending-seqs p ms h)
]

drop-append :
    (n : ℕ) (xs ys : List MessageRow) → n ≤ length xs → drop n (xs ++ ys) ≡ drop n xs ++ ys
drop-append zero xs ys h = refl
drop-append (suc n) [] ys h = absurd (omega arith)
drop-append (suc n) (x ∷ xs) ys h = drop-append n xs ys (omega arith)

drop-whole : (n : ℕ) (xs : List MessageRow) → n ≡ length xs → drop n xs ≡ []
drop-whole zero [] h = refl
drop-whole zero (x ∷ xs) h = absurd (omega arith)
drop-whole (suc n) [] h = refl
drop-whole (suc n) (x ∷ xs) h = drop-whole n xs (omega arith)

-- Behind the message at `k` stand the older ones.
older-drop :
    (ms : List MessageRow) (k : ℕ) (m : MessageRow)
    → Ascending (seqs ms)
    → get_elem? (newest_first ms) k ≡ some m
    → newest_first (keep (λ r. ltb r.seq m.seq) ms) ≡ drop (suc k) (newest_first ms)
older-drop [] k m h e = absurd (cc)
older-drop (r ∷ ms) k m (lo, h) e = elim (get_elem?-last (newest_first ms) r m k e) [
  | inl (lt, e_m) ↦
      let newer =
        get_elem?-All (λ (x : MessageRow). r.seq < x.seq) (newest_first ms) k m
          (newest_first-All _ ms (All-key (λ (x : MessageRow). x.seq) (λ k. r.seq < k) ms lo))
          e_m in
      rw
        (
          lt→ltb r.seq m.seq newer,
          drop-append (suc k) (newest_first ms) (r ∷ []) (omega (arith, lt)),
        )
        (ap (λ (xs : List MessageRow). xs ++ r ∷ []) (older-drop ms k m h e_m))
  | inr (at, e_m) ↦
      let none_older =
        All-map
          (λ (x : MessageRow) lt.
            at_or_above m.seq x.seq (omega (arith, lt, ap (λ (m : MessageRow). m.seq) e_m)))
          ms (All-key (λ (x : MessageRow). x.seq) (λ k. r.seq < k) ms lo) in
      rw
        (
          at_or_above m.seq r.seq (omega (arith, ap (λ (m : MessageRow). m.seq) e_m)),
          keep-none (λ r. ltb r.seq m.seq) ms none_older,
        )
        (sym (
          drop-whole (suc k) (newest_first ms ++ r ∷ [])
            (omega (arith, at, length-append (newest_first ms) (r ∷ [])))))
]
  where
    at_or_above : (b n : ℕ) → b ≤ n → ltb n b ≡ false
    at_or_above b n h = ground arith

and_same : (b : Bool) → b ≡ (b && true)
and_same true = refl
and_same false = refl

unbounded :
    (f : MessageFilter) (d : Db) (ms : List MessageRow)
    → All (λ (m : MessageRow). (passes f d m && true) ≡ passes f d m) ms
unbounded f d [] = tt
unbounded f d (m ∷ ms) = (sym (and_same (passes f d m)), unbounded f d ms)

pub list_statement-offset :
    (f : MessageFilter) (d : Db) (i limit : ℤ)
    → list_statement f (offset i) limit d ≡ limited limit (skipping i (listing f d))
unfolding list_statement
list_statement-offset f d i limit =
    ap (λ (ms : List MessageRow). limited limit (skipping i (newest_first ms)))
      (keep-All (λ m. passes f d m && true) (passes f d) d.messages (unbounded f d d.messages))

-- Where a message stands at position `k` of the listing, the page before its cursor is the page
-- at offset `k + 1`.
pub list_statement-before :
    (f : MessageFilter) (d : Db) (k : ℕ) (m : MessageRow) (limit : ℤ)
    → WellFormed d
    → get_elem? (listing f d) k ≡ some m
    → list_statement f (before m.seq) limit d ≡ list_statement f (offset (pos (suc k))) limit d
unfolding list_statement
list_statement-before f d k m limit wf e =
    ap (limited limit) (
      ap newest_first (keep-and (passes f d) (λ r. ltb r.seq m.seq) d.messages)
      ∙ older-drop (keep (passes f d) d.messages) k m
          (keep-Ascending-seqs (passes f d) d.messages wf.ascending) e)
    ∙ sym (list_statement-offset f d (pos (suc k)) limit)
