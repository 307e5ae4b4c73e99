-- ===== src/Storage/Read/Counts.antt =====
-- The counts are the lengths of the listings and searches that they count.
use mathlib.Core.Path.{subst}
use rustmail.Prelude.Text.{Text}
use rustmail.Prelude.{
  ℕ, suc, ◌≡◌, ◌<◌, refl, sym, ap, ◌∙◌, Bool, true, false, not, ◌&&◌, ◌||◌, ◌==◌, Option, none,
  some, List, [], ◌∷◌, length, length-append, is_empty, All, All-map, All-key, All-keep, Ascending,
  keep, keep-none, keep-all, keep-All, newest_first, has, inl, inr, arith, Bool-cases, Option-cases,
  pos, negsuc, or_right, ==_iff, if◌then◌else◌,
}
use rustmail.Storage.Schema.{MessageSummary, MessageRow, IndexRow, Db, seqs}
use rustmail.Storage.Exec.{Result, ok, err, World, Conn, Exec, statement}
use rustmail.Storage.Delete.Oldest.{length-newest_first}
use rustmail.Storage.Read.{
  MessageFilter, is_set, tagged, offset, passes, passes_all, summaries, joined, list_statement,
  search_statement, found, sanitize_fts_query, search_page, search_count, search_count_filtered,
  list_page, count, count_filtered, when,
}
use rustmail.Storage.WellFormed.{WellFormed, IsListed, listed_self}

-- An action whose answer is counted.
abbrev pub counted {ℓ} : {A : Type ℓ} → Result (List A) × Conn → Result ℕ × Conn
counted (ok rows, c) = (ok (length rows), c)
counted (err e, c) = (err e, c)

pub every_row : (ms : List MessageRow) → All (λ (m : MessageRow). true ≡ true) ms
every_row [] = tt
every_row (m ∷ ms) = (refl, every_row ms)

-- A filter that `is_empty` lets every message through.
passes_all-passes :
    (f : MessageFilter) (d : Db) (m : MessageRow) → passes_all f ≡ true → passes f d m ≡ true
unfolding passes_all passes
passes_all-passes f d m h = go f.starred f.unread f.has_attachments (is_empty f.tags) h
  where
    go :
        (s u a t : Bool)
        → (not s && not u && not a && t) ≡ true
        → (is_set s m.summary.is_starred
            && is_set u (not m.summary.is_read)
            && is_set a m.summary.has_attachments
            && (t || tagged d.tags f.tags m.seq))
          ≡ true
    go s u a t h = ground arith

length-summaries : (ms : List MessageRow) → length (summaries ms) ≡ length ms
length-summaries [] = refl
length-summaries (m ∷ ms) = ap suc (length-summaries ms)

and_true_right : (b : Bool) → (b && true) ≡ b
and_true_right true = refl
and_true_right false = refl

bound_free :
    (f : MessageFilter) (d : Db) (ms : List MessageRow)
    → All (λ (m : MessageRow). (passes f d m && true) ≡ passes f d m) ms
bound_free f d [] = tt
bound_free f d (m ∷ ms) = (and_true_right (passes f d m), bound_free f d ms)

length-unbounded :
    (f : MessageFilter) (d : Db) (ms : List MessageRow)
    → length (summaries (newest_first (keep (λ m. passes f d m && true) ms)))
      ≡ length (keep (passes f d) ms)
length-unbounded f d ms =
    length-summaries _
    ∙ length-newest_first _
    ∙ ap length (keep-All (λ m. passes f d m && true) (passes f d) ms (bound_free f d ms))

module _ (w : World) where
  counts :
      {A : Type 0} (n : Db → ℕ) (rows : Db → List A) (c : Conn)
      → n c.db ≡ length (rows c.db)
      → statement w (λ d. (ok (n d), d)) c ≡ counted (statement w (λ d. (ok (rows d), d)) c)
  unfolding statement
  counts n rows c e = elim (Option-cases (w.fault c.moment)) [
    | inl none_failed ↦ rw (none_failed, e) refl
    | inr (error, failed) ↦ rw failed refl
  ]

  -- `count_filtered` counts the messages that a listing without a limit gives.
  pub count_filtered-list_page :
      (f : MessageFilter) (c : Conn)
      → count_filtered w f c ≡ counted (list_page w f (offset (pos 0)) (negsuc 0) c)
  unfolding count_filtered count list_page list_statement
  count_filtered-list_page f c = elim (Bool-cases (passes_all f)) [
    | inl e ↦ rw e (
        counts (λ d. length d.messages) _ c
          (sym (
            length-unbounded f c.db c.db.messages
            ∙ ap length (
                keep-all (passes f c.db) c.db.messages (
                  All-map (λ m h. passes_all-passes f c.db m e) c.db.messages
                    (every_row c.db.messages))))))
    | inr e ↦ rw e (
        counts (λ d. length (keep (passes f d) d.messages)) _ c
          (sym (length-unbounded f c.db c.db.messages)))
  ]

-- A listed key is the key of one message.
one_message :
    (n : ℕ) (ms : List MessageRow)
    → Ascending (seqs ms)
    → IsListed ms n
    → length (keep (λ m. m.seq == n) ms) ≡ 1
one_message n [] h l = cc
one_message n (m ∷ ms) (lo, h) l = elim (Bool-cases (n == m.seq)) [
  | inl here ↦
      let e = (==_iff n m.seq).0 here in
      rw
        (
          same_key m.seq n (sym e),
          keep-none (λ m. m.seq == n) ms
              (All-map
                (λ (r : MessageRow) lt. other_key r.seq n (subst (λ k. k < r.seq) (sym e) lt)) ms
                (All-key (λ (r : MessageRow). r.seq) (λ k. m.seq < k) ms lo)),
        )
        refl
  | inr other ↦ rw (flipped n m.seq other) (one_message n ms h (or_right _ _ other l))
]
  where
    same_key : (a b : ℕ) → a ≡ b → (a == b) ≡ true
    same_key a b h = ground arith

    other_key : (a b : ℕ) → b < a → (a == b) ≡ false
    other_key a b h = ground arith

    flipped : (a b : ℕ) → (a == b) ≡ false → (b == a) ≡ false
    flipped a b h = ground arith

length-joined :
    (ms : List MessageRow) (index : List IndexRow)
    → Ascending (seqs ms)
    → All (λ (i : IndexRow). IsListed ms i.rowid) index
    → length (joined ms index) ≡ length index
length-joined ms [] h l = refl
length-joined ms (i ∷ index) h (here, l) =
    length-append (keep (λ m. m.seq == i.rowid) ms) (joined ms index)
    ∙ omega (arith, one_message i.rowid ms h here, length-joined ms index h l)

-- Every indexed row has its message.
index-IsListed :
    (d : Db) → WellFormed d → All (λ (i : IndexRow). IsListed d.messages i.rowid) d.index
index-IsListed d wf =
    All-key (λ (i : IndexRow). i.rowid) (λ k. has k (seqs d.messages) ≡ true) d.index
      (subst (All (λ k. has k (seqs d.messages) ≡ true)) (sym wf.index)
        (listed_self (seqs d.messages) (seqs d.messages) (λ k e. e)))

module _ (is_alphanumeric : ℕ → Bool) (matches : Text → IndexRow → Bool) (w : World) where
  abbrev searched : Text → MessageFilter → Exec (List MessageSummary)
  searched query f = search_page is_alphanumeric matches w query f (offset (pos 0)) (negsuc 0)

  search_total :
      (q : Text) (f : MessageFilter) (d : Db)
      → WellFormed d
      → passes_all f ≡ true
      → length (keep (matches q) d.index)
        ≡ length
            (summaries (search_statement is_alphanumeric matches q f (offset (pos 0)) (negsuc 0) d))
  unfolding search_statement
  search_total q f d wf e =
      let rows = found is_alphanumeric matches q d in
      sym (
        length-unbounded f d rows
        ∙ ap length (
            keep-all (passes f d) rows
              (All-map (λ m h. passes_all-passes f d m e) rows (every_row rows)))
        ∙ length-joined d.messages (keep (matches q) d.index) wf.ascending (
            All-keep (λ (i : IndexRow). IsListed d.messages i.rowid) (matches q) d.index
              (index-IsListed d wf)))

  with_query :
      (o : Option Text) (f : MessageFilter) (c : Conn)
      → WellFormed c.db
      → (if passes_all f
            then when is_alphanumeric matches w o 0
                (λ q. statement w (λ d. (ok (length (keep (matches q) d.index)), d)))
            else when is_alphanumeric matches w o 0 (λ q.
              statement w
                (λ d. (ok (length (keep (passes f d) (found is_alphanumeric matches q d))), d))))
          c
        ≡ counted (
            when is_alphanumeric matches w o []
              (λ q. statement w (λ d. (
                ok (
                    summaries
                      (search_statement is_alphanumeric matches q f (offset (pos 0)) (negsuc 0) d)),
                d,
              )))
              c)
  unfolding search_statement
  with_query none f c wf = elim (Bool-cases (passes_all f)) [
    | inl e ↦ rw e refl
    | inr e ↦ rw e refl
  ]
  with_query (some q) f c wf = elim (Bool-cases (passes_all f)) [
    | inl e ↦
        rw e (counts w (λ d. length (keep (matches q) d.index)) _ c (search_total q f c.db wf e))
    | inr e ↦ rw e (
        counts w (λ d. length (keep (passes f d) (found is_alphanumeric matches q d))) _ c
          (sym (length-unbounded f c.db (found is_alphanumeric matches q c.db))))
  ]

  -- `search_count_filtered` counts the messages that a search without a limit gives, also where it
  -- counts the index alone.
  pub search_count_filtered-search_page :
      (query : Text) (f : MessageFilter) (c : Conn)
      → WellFormed c.db
      → search_count_filtered is_alphanumeric matches w query f c ≡ counted (searched query f c)
  unfolding search_count_filtered search_count search_page
  search_count_filtered-search_page query f c wf =
      with_query (sanitize_fts_query is_alphanumeric query) f c wf
