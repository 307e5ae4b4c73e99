-- ===== src/Storage/Read.antt =====
-- The listings, searches and counts of crates/rustmail-storage/src/repo.rs, with the conditions and
-- windows that query.rs appends.
pub mod Pages
pub mod Counts
use mathlib.Core.Option
use rustmail.Prelude.Text.{Text, codes, same, trim}
use rustmail.Prelude.{
  ℕ, Bool, true, false, not, ◌&&◌, ◌||◌, ◌==◌, Option, none, some, List, [], ◌∷◌, ◌++◌, map, length,
  any, is_empty, keep, first, newest_first, ltb, ℤ, pos, limited, skipping, if◌then◌else◌,
}
use rustmail.Storage.Schema.{MessageSummary, MessageRow, IndexRow, TagRow, Db, seqs}
use rustmail.Storage.Error.{not_found}
use rustmail.Storage.Exec.{Result, ok, err, World, Exec, pure, raise, ◌>>=◌, statement}
use rustmail.Storage.Delete.{read, seq_of}

pub record MessageFilter : Type 0 where
  pub starred : Bool
  pub unread : Bool
  pub has_attachments : Bool
  pub tags : List Text

abbrev pub no_filter : MessageFilter
no_filter = record { starred = false; unread = false; has_attachments = false; tags = [] }

-- `MessageFilter::is_empty`
unfoldable pub passes_all : MessageFilter → Bool
passes_all f = not f.starred && not f.unread && not f.has_attachments && is_empty f.tags

pub data PageStart : Type 0 where
  offset : ℤ → PageStart
  before : ℕ → PageStart

abbrev pub is_set : Bool → Bool → Bool
is_set true b = b
is_set false b = true

-- `seq IN (SELECT message_seq FROM message_tags WHERE tag IN (…))`
abbrev pub tagged : List TagRow → List Text → ℕ → Bool
tagged rows tags n = any (λ (r : TagRow). r.message_seq == n && any (same r.tag) tags) rows

-- The conditions of `push_filter`.
unfoldable pub passes : MessageFilter → Db → MessageRow → Bool
passes f d m =
    is_set f.starred m.summary.is_starred
    && is_set f.unread (not m.summary.is_read)
    && is_set f.has_attachments m.summary.has_attachments
    && (is_empty f.tags || tagged d.tags f.tags m.seq)

-- The cursor bound and the window of `push_page`.
abbrev pub in_bound : PageStart → ℕ → Bool
in_bound (offset o) n = true
in_bound (before b) n = ltb n b

abbrev pub window {ℓ} : {A : Type ℓ} → PageStart → ℤ → List A → List A
window (offset o) limit rows = limited limit (skipping o rows)
window (before b) limit rows = limited limit rows

-- The rows of `list_statement`.
unfoldable pub list_statement : MessageFilter → PageStart → ℤ → Db → List MessageRow
unfolding passes
list_statement f start limit d =
    window start limit (newest_first (keep (λ m. passes f d m && in_bound start m.seq) d.messages))

-- `messages_fts fts INNER JOIN messages m ON m.seq = fts.rowid`, in the order of the index.
abbrev pub joined : List MessageRow → List IndexRow → List MessageRow
joined ms [] = []
joined ms (i ∷ index) = keep (λ m. m.seq == i.rowid) ms ++ joined ms index

abbrev pub summaries : List MessageRow → List MessageSummary
summaries = map (λ m. m.summary)

-- `is_alphanumeric` stands for Unicode's tables.
module _ (is_alphanumeric : ℕ → Bool) where
  abbrev pub is_searched : ℕ → Bool
  is_searched c =
      is_alphanumeric c
      || c == b' '
      || c == b'@'
      || c == b'.'
      || c == b'-'
      || c == b'+'
      || c == b'_'

  abbrev quoted : Text → Option Text
  quoted s = if is_empty (trim s) then none else some (codes "\"" ++ (s ++ codes "\""))

  unfoldable pub sanitize_fts_query : Text → Option Text
  unfolding trim
  sanitize_fts_query query = quoted (keep is_searched query)

  -- `matches` is what FTS5 finds for a query.
  module _ (matches : Text → IndexRow → Bool) where
    -- The rows that the index finds, with their messages.
    abbrev pub found : Text → Db → List MessageRow
    found query d = joined d.messages (keep (matches query) d.index)

    unfoldable pub search_statement : Text → MessageFilter → PageStart → ℤ → Db → List MessageRow
    unfolding passes
    search_statement query f start limit d =
        window start limit
          (newest_first (keep (λ m. passes f d m && in_bound start m.seq) (found query d)))

    module _ (w : World) where
      abbrev when {ℓ} : {A : Type ℓ} → Option Text → A → (Text → Exec A) → Exec A
      when none a f = pure a
      when (some q) a f = f q

      unfoldable pub search_page : Text → MessageFilter → PageStart → ℤ → Exec (List MessageSummary)
      unfolding sanitize_fts_query search_statement statement
      search_page query f start limit =
          when (sanitize_fts_query query) []
            (λ q. read w (λ d. summaries (search_statement q f start limit d)))

      unfoldable pub search_count : Text → Exec ℕ
      unfolding sanitize_fts_query statement
      search_count query =
          when (sanitize_fts_query query) 0 (λ q. read w (λ d. length (keep (matches q) d.index)))

      unfoldable pub search_count_filtered : Text → MessageFilter → Exec ℕ
      unfolding passes_all search_count sanitize_fts_query statement passes
      search_count_filtered query f =
          if passes_all f
          then search_count query
          else when (sanitize_fts_query query) 0
              (λ q. read w (λ d. length (keep (passes f d) (found q d))))

module _ (w : World) where
  unfoldable pub list_page : MessageFilter → PageStart → ℤ → Exec (List MessageSummary)
  unfolding list_statement statement
  list_page f start limit = read w (λ d. summaries (list_statement f start limit d))

  abbrev or_missing : Text → Option ℕ → Exec ℕ
  or_missing id none = raise (not_found id)
  or_missing id (some n) = pure n

  -- A `Cursor` is the `seq` of a message.
  unfoldable pub cursor : Text → Exec ℕ
  unfolding statement ◌>>=◌
  cursor id = read w (seq_of id) >>= or_missing id

  unfoldable pub count : Exec ℕ
  unfolding statement
  count = read w (λ d. length d.messages)

  unfoldable pub count_filtered : MessageFilter → Exec ℕ
  unfolding passes_all count statement passes
  count_filtered f =
      if passes_all f then count else read w (λ d. length (keep (passes f d) d.messages))
