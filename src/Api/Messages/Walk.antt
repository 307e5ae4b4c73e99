-- ===== src/Api/Messages/Walk.antt =====
-- A client that follows `next_cursor` from the first page reads the whole listing.
use mathlib.Core.List.{map-append, append-nil}
use rustmail.Prelude.Text.{Text}
use rustmail.Prelude.{
  ℕ, zero, suc, ◌+◌, ◌≡◌, ◌≤◌, ◌<◌, refl, sym, ap, ◌∙◌, Bool, Option, none, some, List, [], ◌++◌,
  length, length-take, length-drop, take-take, take-all, take-drop, drop-drop, get_elem?-drop, take,
  drop, get_elem?, keep, ltb, ltb→lt, ℤ, pos, Bool-cases, inl, inr, arith,
}
use rustmail.Storage.Schema.{MessageSummary, MessageRow, IndexRow, Db}
use rustmail.Storage.Exec.{ok, World, Conn, statement, ◌>>=◌}
use rustmail.Storage.Delete.{read, seq_of}
use rustmail.Storage.Read.{
  PageStart, offset, before, passes, passes_all, list_statement, list_page, summaries, count,
  count_filtered, cursor,
}
use rustmail.Storage.Read.Pages.{listing, list_statement-offset, list_statement-before}
use rustmail.Storage.WellFormed.{WellFormed}
use rustmail.Api.Messages.Windows.{
  seq_of-listing, take-summaries, length-summaries, last_of, more_than, no_more,
}
use rustmail.Api.Messages.{
  ListParams, ListResponse, Answer, answered, refused, page_limit, last_id, respond, with_start,
  rows_from, total_of, serve_page, list_messages,
}

abbrev pub request : ListParams → Option Text → ListParams
request p at = record p { q = none; offset = none; before = at }

-- The client: it asks for the first page, and then for the page behind each cursor it is given.
module _ (is_alphanumeric : ℕ → Bool) (matches : Text → IndexRow → Bool) (w : World)
    (p : ListParams) where
  abbrev follow :
      (Option Text → Conn → List MessageSummary) → Option Text → Conn → List MessageSummary
  follow go none c = []
  follow go (some id) c = go (some id) c

  abbrev after_page :
      (Option Text → Conn → List MessageSummary) → Answer ListResponse × Conn → List MessageSummary
  after_page go (answered r, c) = r.messages ++ follow go r.next_cursor c
  after_page go (refused e, c) = []

  unfoldable pub walk : ℕ → Option Text → Conn → List MessageSummary
  unfolding list_messages
  walk zero at c = []
  walk (suc fuel) at c =
      after_page (walk fuel) (list_messages is_alphanumeric matches w (request p at) c)

module _ (is_alphanumeric : ℕ → Bool) (matches : Text → IndexRow → Bool) (w : World)
    (quiet : (n : ℕ) → w.fault n ≡ none) (p : ListParams) (d : Db) (wf : WellFormed d) where
  abbrev at_moment : ℕ → Conn
  at_moment n = record { db = d; moment = n }

  abbrev rows : List MessageRow
  rows = listing p.filter d

  abbrev size : ℕ
  size = page_limit p.limit

  read_quiet :
      {A : Type 0} (f : Db → A) (n : ℕ) → read w f (at_moment n) ≡ (ok (f d), at_moment (suc n))
  unfolding statement
  read_quiet f n = rw (quiet n) refl

  -- A page is what the listing has behind position `k`.
  record Pages (k : ℕ) (r : Answer ListResponse × Conn) : Type 0 where
    total : ℕ
    after : ℕ
    served : r ≡ (
      answered (respond size (summaries (take (size + 1) (drop k rows))) total),
      at_moment after,
    )

  count_quiet :
      (n : ℕ) → (t : ℕ) × (count_filtered w p.filter (at_moment n) ≡ (ok t, at_moment (suc n)))
  unfolding count_filtered count
  count_quiet n = elim (Bool-cases (passes_all p.filter)) [
    | inl e ↦ (length d.messages, rw e (read_quiet (λ d. length d.messages) n))
    | inr e ↦ (
      length (keep (passes p.filter d) d.messages),
      rw e (read_quiet (λ d. length (keep (passes p.filter d) d.messages)) n),
    )
  ]

  serve_page-Pages :
      (start : PageStart) (k n : ℕ) (at : Option Text)
      → list_statement p.filter start (pos (size + 1)) d ≡ take (size + 1) (drop k rows)
      → Pages k (serve_page is_alphanumeric matches w (request p at) size start (at_moment n))
  unfolding serve_page rows_from total_of list_page
  serve_page-Pages start k n at e =
      let (t, counted) = count_quiet (suc n) in
      record {
        total = t;
        after = suc (suc n);
        served =
            rw
              (
                read_quiet (λ d. summaries (list_statement p.filter start (pos (size + 1)) d)) n,
                e,
                counted,
              )
              refl;
      }

  -- A cursor is the identifier of the message right before position `k`.
  Starts : Option Text → ℕ → Type 0
  Starts none k = k ≡ 0
  Starts (some id) k =
      (j : ℕ) × (m : MessageRow) × (k ≡ suc j) × (get_elem? rows j ≡ some m) × (id ≡ m.summary.id)

  cursor_quiet :
      (m : MessageRow) (n : ℕ)
      → seq_of m.summary.id d ≡ some m.seq
      → cursor w m.summary.id (at_moment n) ≡ (ok m.seq, at_moment (suc n))
  unfolding cursor ◌>>=◌
  cursor_quiet m n e = rw (read_quiet (seq_of m.summary.id) n, e) refl

  list_messages-Pages :
      (at : Option Text) (k n : ℕ)
      → Starts at k
      → Pages k (list_messages is_alphanumeric matches w (request p at) (at_moment n))
  unfolding list_messages with_start Starts
  list_messages-Pages none k n s = serve_page-Pages (offset (pos 0)) k n none (
      list_statement-offset p.filter d (pos 0) (pos (size + 1))
      ∙ ap (λ k. take (size + 1) (drop k rows)) (sym s))
  list_messages-Pages (some id) k n (j, m, e_k, e_m, e_id) =
      rw (e_id, cursor_quiet m n (seq_of-listing p.filter d j m wf e_m))
        (serve_page-Pages (before m.seq) k (suc n) (some m.summary.id) (
          list_statement-before p.filter d j m (pos (size + 1)) wf e_m
          ∙ list_statement-offset p.filter d (pos (suc j)) (pos (size + 1))
          ∙ ap (λ k. take (size + 1) (drop k rows)) (sym e_k)))

  size-positive : (l : Option ℤ) → 0 < page_limit l
  unfolding page_limit
  size-positive none = omega arith
  size-positive (some n) = omega arith

  abbrev client : ℕ → Option Text → Conn → List MessageSummary
  client = walk is_alphanumeric matches w p

  positive_suc : (n : ℕ) → 0 < n → (m : ℕ) × (n ≡ suc m)
  positive_suc zero h = absurd (omega (arith, h))
  positive_suc (suc m) h = (m, refl)

  -- One page and what the rest of the walk gives.
  page-rest :
      (fuel k size' total after : ℕ)
      → page_limit p.limit ≡ suc size'
      → ((id : Text) (j n : ℕ)
          → Starts (some id) j
          → length (drop j rows) < length (drop k rows)
          → client fuel (some id) (at_moment n) ≡ summaries (drop j rows))
      → after_page is_alphanumeric matches w p (client fuel) (
        answered (respond size (summaries (take (size + 1) (drop k rows))) total),
        at_moment after,
      )
        ≡ summaries (drop k rows)
  unfolding respond Starts
  page-rest fuel k size' total after e_size ih =
      let rest = drop k rows in
      let shown =
        take-summaries size (take (size + 1) rest)
        ∙ ap summaries (take-take size (size + 1) rest (omega arith)) in
      let seen = length-summaries (take (size + 1) rest) ∙ length-take (size + 1) rest in
      elim (Bool-cases (ltb size (length (summaries (take (size + 1) rest))))) [
        | inl more ↦
            let longer = more_than size _ (length rest) (ltb→lt size _ more) seen in
            let l = last_of size' rest (omega (arith, longer, e_size)) in
            let last = ap (λ n. last_id (summaries (take n rest))) e_size ∙ l.is_last in
            let starts : Starts (some l.message.summary.id) (k + size) = (
              k + size',
              l.message,
              (omega (arith, e_size)),
              (sym (get_elem?-drop size' k (k + size') rows refl) ∙ l.stands),
              refl,
            ) in
            rw
              (
                more,
                shown,
                last,
                ih l.message.summary.id (k + size) after starts (
                    omega (
                      arith,
                      length-drop size rest,
                      ap length (drop-drop size k (k + size) rows refl),
                      longer,
                      e_size,
                    )),
              )
              (sym (
                  map-append (λ (m : MessageRow). m.summary) (take size rest)
                    (drop (k + size) rows))
                ∙ ap (λ ms. summaries (take size rest ++ ms))
                    (sym (drop-drop size k (k + size) rows refl))
                ∙ ap summaries (take-drop size rest))
        | inr whole ↦
            rw (whole, shown, append-nil (summaries (take size rest)))
              (ap summaries (take-all size rest (no_more size _ (length rest) whole seen)))
      ]

  abbrev from_start : ℕ → Conn → List MessageSummary
  from_start fuel c = client fuel none c

  client-Starts :
      (fuel k n : ℕ) (at : Option Text)
      → Starts at k
      → length (drop k rows) ≤ fuel
      → client (suc fuel) at (at_moment n) ≡ summaries (drop k rows)
  unfolding walk
  client-Starts zero k n at s h =
      let page = list_messages-Pages at k n s in
      let (size', e_size) = positive_suc size (size-positive p.limit) in
      rw page.served (
        page-rest zero k size' page.total page.after e_size
          (λ id j n' s' shorter. absurd (omega (arith, shorter, h))))
  client-Starts (suc fuel) k n at s h =
      let page = list_messages-Pages at k n s in
      let (size', e_size) = positive_suc size (size-positive p.limit) in
      rw page.served (
        page-rest (suc fuel) k size' page.total page.after e_size
          (λ id j n' s' shorter. client-Starts fuel j n' (some id) s' (omega (arith, shorter, h))))

-- While nothing fails and nothing is stored or deleted in between, a client that follows
-- `next_cursor` from the first page reads every message that passes its filter, once and in the
-- order of the listing, whatever limit it asks for; as many pages as there are messages, and one
-- more, are enough.
pub walk-listing :
    (is_alphanumeric : ℕ → Bool) (matches : Text → IndexRow → Bool) (w : World) (p : ListParams)
    (c : Conn) (fuel : ℕ)
    → ((n : ℕ) → w.fault n ≡ none)
    → WellFormed c.db
    → length (listing p.filter c.db) ≤ fuel
    → walk is_alphanumeric matches w p (suc fuel) none c ≡ summaries (listing p.filter c.db)
unfolding Starts
walk-listing is_alphanumeric matches w p c fuel quiet wf h =
    client-Starts is_alphanumeric matches w quiet p c.db wf fuel 0 c.moment none refl h
