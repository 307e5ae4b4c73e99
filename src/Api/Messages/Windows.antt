-- ===== src/Api/Messages/Windows.antt =====
-- Pages as windows of a listing: their last message, and how a message is found again.
use rustmail.Prelude.Text.{same, same_self}
use rustmail.Prelude.{
  ℕ, zero, suc, ◌+◌, ◌≡◌, ◌≤◌, ◌<◌, refl, ap, min, false, some, List, [], ◌∷◌, length, take,
  get_elem?, All, All-keep, keep, first, ltb, arith,
}
use rustmail.Storage.Schema.{MessageRow, Db, seqs}
use rustmail.Storage.Delete.{has_id, seq_of}
use rustmail.Storage.Delete.Oldest.{newest_first-All, get_elem?-All}
use rustmail.Storage.Read.{MessageFilter, passes, summaries}
use rustmail.Storage.Read.Pages.{listing}
use rustmail.Storage.WellFormed.{WellFormed, DistinctIds}
use rustmail.Api.Messages.{last_id}

-- Every message is found by its identifier.
found_by_id :
    (ms : List MessageRow)
    → DistinctIds ms
    → All (λ (m : MessageRow). first (seqs (keep (has_id m.summary.id) ms)) ≡ some m.seq) ms
found_by_id [] h = tt
found_by_id (m ∷ ms) (new, h) = (rw (same_self m.summary.id) refl, skip ms new (found_by_id ms h))
  where
    skip :
        (rs : List MessageRow)
        → All (λ (r : MessageRow). same m.summary.id r.summary.id ≡ false) rs
        → All (λ (r : MessageRow). first (seqs (keep (has_id r.summary.id) ms)) ≡ some r.seq) rs
        → All
            (λ (r : MessageRow). first (seqs (keep (has_id r.summary.id) (m ∷ ms))) ≡ some r.seq)
            rs
    skip [] n f = tt
    skip (r ∷ rs) (n, ns) (f, fs) = (rw n f, skip rs ns fs)

pub seq_of-listing :
    (f : MessageFilter) (d : Db) (k : ℕ) (m : MessageRow)
    → WellFormed d
    → get_elem? (listing f d) k ≡ some m
    → seq_of m.summary.id d ≡ some m.seq
seq_of-listing f d k m wf e =
    get_elem?-All (λ (m : MessageRow). seq_of m.summary.id d ≡ some m.seq) (listing f d) k m
      (newest_first-All _ _ (All-keep _ (passes f d) d.messages (found_by_id d.messages wf.ids))) e

pub take-summaries : (n : ℕ) (ms : List MessageRow) → take n (summaries ms) ≡ summaries (take n ms)
take-summaries zero ms = refl
take-summaries (suc n) [] = refl
take-summaries (suc n) (m ∷ ms) = ap (◌∷◌ m.summary) (take-summaries n ms)

pub length-summaries : (ms : List MessageRow) → length (summaries ms) ≡ length ms
length-summaries [] = refl
length-summaries (m ∷ ms) = ap suc (length-summaries ms)

-- The last message of a full page stands right before the rest.
pub record LastOf (n : ℕ) (rest : List MessageRow) : Type 0 where
  pub message : MessageRow
  pub is_last : last_id (summaries (take (suc n) rest)) ≡ some message.summary.id
  pub stands : get_elem? rest n ≡ some message

pub last_of : (n : ℕ) (rest : List MessageRow) → n < length rest → LastOf n rest
last_of n [] h = absurd (omega arith)
last_of zero (m ∷ ms) h = record { message = m; is_last = refl; stands = refl }
last_of (suc n) (m ∷ []) h = absurd (omega arith)
last_of (suc n) (m ∷ r ∷ ms) h =
    let l = last_of n (r ∷ ms) (omega arith) in
    record { message = l.message; is_last = l.is_last; stands = l.stands }

pub more_than : (n seen size : ℕ) → n < seen → seen ≡ min (n + 1) size → n < size
more_than n seen size h e = omega (arith, h, e)

pub no_more : (n seen size : ℕ) → ltb n seen ≡ false → seen ≡ min (n + 1) size → size ≤ n
no_more n seen size h e = omega (arith, not_less n seen h, e)
  where
    not_less : (a b : ℕ) → ltb a b ≡ false → b ≤ a
    not_less a b h = ground arith
