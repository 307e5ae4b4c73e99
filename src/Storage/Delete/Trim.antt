-- ===== src/Storage/Delete/Trim.antt =====
-- `trim_to_max` leaves exactly the newest messages.
use mathlib.Core.Path.{subst}
use rustmail.Prelude.Text.{Text}
use rustmail.Prelude.{
  ℕ, zero, suc, ◌≡◌, ◌-◌, ◌≤◌, refl, sym, ap, Bool, true, false, not, Option, none, some, List, [],
  ◌∷◌, length, All-key, All, All-map, keep, without, has-keep, has, keep-All, keep-all, keep-none,
  take, drop, get_elem?, newest_first, Bool-cases, inl, inr, leb, ℤ, pos, negsuc, from_zero,
  leb_int, arith, if◌then◌else◌, leb→le,
}
use rustmail.Storage.Schema.{MessageRow, IndexRow, Db, seqs}
use rustmail.Storage.Exec.{World, Conn, pure, ◌>>◌, transaction_or}
use rustmail.Storage.Exec.Holds.{
  Post, EndsOr, Effect, transaction_or-Effect, retry_on_lock-Effect, pass-Post, pass-Holds,
}
use rustmail.Storage.Delete.{
  remove_messages, remove_index, ids_of, up_to, threshold_of, trim_below, trim_in, trim_to_max_once,
  trim_to_max,
}
use rustmail.Storage.Delete.Purge.{gone}
use rustmail.Storage.Delete.Oldest.{length-newest_first, length-seqs, at_most, at_most-Splits}
use rustmail.Storage.Delete.Effects.{Purged, Purged-none, two_deletes}
use rustmail.Storage.WellFormed.{WellFormed}

-- What is trimmed: the oldest messages go, the newest `most` stay.
pub record Trimmed (most : ℤ) (d : Db) (ids : List Text) (d' : Db) : Type 0 where
  pub oldest : MessageRow → Bool
  pub goes : keep oldest d.messages ≡ take (length d.messages - from_zero most) d.messages
  pub stays : without oldest d.messages ≡ drop (length d.messages - from_zero most) d.messages
  pub purged : Purged oldest d ids d'

all-false : (ms : List MessageRow) → All (λ (m : MessageRow). false ≡ false) ms
all-false [] = tt
all-false (m ∷ ms) = (refl, all-false ms)

all-true : (ms : List MessageRow) → All (λ (m : MessageRow). true ≡ true) ms
all-true [] = tt
all-true (m ∷ ms) = (refl, all-true ms)

-- Where there are few enough messages, none goes.
Trimmed-none : (most : ℤ) (d : Db) → length d.messages ≤ from_zero most → Trimmed most d [] d
Trimmed-none most d h = record {
  oldest = λ m. false;
  goes =
      rw (none_over (length d.messages) (from_zero most) h)
        (keep-none (λ m. false) d.messages (all-false d.messages));
  stays =
      rw (none_over (length d.messages) (from_zero most) h)
        (keep-all (λ m. true) d.messages (all-true d.messages));
  purged = Purged-none (λ m. false) d (all-false d.messages);
}
  where
    none_over : (n k : ℕ) → n ≤ k → n - k ≡ 0
    none_over n k h = omega arith

get_elem?-none {ℓ} : {A : Type ℓ} (xs : List A) (n : ℕ) → get_elem? xs n ≡ none → length xs ≤ n
get_elem?-none [] n e = omega arith
get_elem?-none (x ∷ xs) zero e = cc
get_elem?-none (x ∷ xs) (suc n) e = omega (arith, get_elem?-none xs n e)

keys-All {κ} :
    (P : ℕ → Type κ) (ms : List MessageRow) → All (λ (m : MessageRow). P m.seq) ms → All P (seqs ms)
keys-All P [] h = tt
keys-All P (m ∷ ms) (pm, h) = (pm, keys-All P ms h)

-- In the index, the rows up to the threshold are those of the messages that go.
index_agrees :
    (t : ℕ) (d : Db)
    → WellFormed d
    → without (λ (i : IndexRow). up_to t i.rowid) d.index
      ≡ without (λ i. has i.rowid (gone (at_most t) d)) d.index
index_agrees t d wf = keep-All _ _ d.index (
    All-map (λ i e. ap not (sym e)) d.index
      (All-key (λ (i : IndexRow). i.rowid) (λ k. has k (gone (at_most t) d) ≡ leb k t) d.index
        (subst (All (λ k. has k (gone (at_most t) d) ≡ leb k t)) (sym wf.index) (
          keys-All (λ k. has k (gone (at_most t) d) ≡ leb k t) d.messages
            (has-keep (λ (m : MessageRow). m.seq) (at_most t) d.messages wf.ascending)))))

module _ (w : World) (most : ℤ) where
  abbrev Trims : Db → List Text → Db → Type 0
  Trims d ids d' = WellFormed d → Trimmed most d ids d'

  trim_below-Post :
      (t : Option ℕ) (c : Conn)
      → threshold_of most c.db ≡ t
      → Post (EndsOr w Trims [] c.db) (trim_below w t c)
  unfolding trim_below ◌>>◌
  trim_below-Post none c e = λ wf. Trimmed-none most c.db (
      omega (
        arith,
        get_elem?-none (newest_first (seqs c.db.messages)) (from_zero most) e,
        length-newest_first (seqs c.db.messages),
        length-seqs c.db.messages,
      ))
  trim_below-Post (some t) c e =
      let Q = EndsOr w Trims [] c.db in
      pass-Post w (λ d. tt) (remove_index (λ i. up_to t i.rowid)) Q _ c
        (pass-Post w (λ d. ids_of (keep (at_most t) d.messages)) (remove_messages (at_most t)) Q
          (λ ids. pure (some ids)) _
          (λ wf.
            let (goes, stays) = at_most-Splits c.db.messages (from_zero most) t wf.ascending e in
            record {
              oldest = at_most t;
              goes = goes;
              stays = stays;
              purged = two_deletes (λ i. up_to t i.rowid) (at_most t) c.db (index_agrees t c.db wf);
            }))

  trim_in-Post : (c : Conn) → Post (EndsOr w Trims [] c.db) (trim_in w most c)
  unfolding trim_in
  trim_in-Post c =
      pass-Post w (threshold_of most) (λ d. d) (EndsOr w Trims [] c.db) (trim_below w) c
        (trim_below-Post (threshold_of most c.db) (record { db = c.db; moment = suc c.moment })
          refl)

  leb_int→le : (n : ℕ) (i : ℤ) → leb_int n i ≡ true → n ≤ from_zero i
  leb_int→le n (pos m) e = leb→le n m e
  leb_int→le n (negsuc m) e = cc

  trim_once-Effect : Effect Trims (trim_to_max_once w most)
  unfolding trim_to_max_once
  trim_once-Effect c =
      pass-Holds w (λ d. length d.messages) (λ d. d) (λ ids c'. Trims c.db ids c'.db)
        (λ e c'. c'.db ≡ c.db)
        (λ count. if leb_int count most then pure [] else transaction_or w [] (trim_in w most)) c
        (λ error. refl)
        (elim (Bool-cases (leb_int (length c.db.messages) most)) [
          | inl few ↦ rw few (λ wf. Trimmed-none most c.db (leb_int→le _ most few))
          | inr many ↦ rw many (
              transaction_or-Effect w Trims [] (trim_in w most) trim_in-Post
                (record { db = c.db; moment = suc c.moment }))
        ])

  -- The oldest messages beyond `most` go, with all that belongs to them, or nothing does.
  pub trim_to_max-Effect : Effect Trims (trim_to_max w most)
  unfolding trim_to_max
  trim_to_max-Effect = retry_on_lock-Effect w Trims (trim_to_max_once w most) trim_once-Effect
