-- ===== src/Storage/Insert.antt =====
-- `insert_prepared` and `insert_batch` of crates/rustmail-storage/src/repo.rs, with the statements
-- of `insert_all_in`, `insert_rows_in` and `index_in`.
pub mod Items
pub mod Adds
pub mod Batch
pub mod Contents
use mathlib.Core.Option
use rustmail.Prelude.Text.{Text, codes, same}
use rustmail.Prelude.{
  ℕ, zero, suc, Bool, true, false, Option, none, some, List, [], ◌∷◌, ◌++◌, map, length, take, drop,
  any, has, pos, is_empty, ◌==◌, if◌then◌else◌,
}
use rustmail.Storage.Schema.{
  TransferEncoding, Locator, AttachmentStorage, located, inline, PreparedAttachment,
  PreparedMessage, MessageSummary, AttachmentRow, IndexRow, Db, seqs, next_seq,
}
use rustmail.Storage.Exec.{
  Result, ok, err, World, Exec, pure, raise, ◌>>=◌, ◌>>◌, moment, statement, transaction,
  retry_on_lock,
}
use rustmail.Storage.Error.{database, code, other}
use rustmail.Storage.Locator

-- A constraint refuses the row, with SQLITE_CONSTRAINT.
abbrev pub unless_taken {ℓ} : {A : Type ℓ} → Bool → A → Db → Db → Result A × Db
unless_taken true a d d' = (err (database (code 19)), d)
unless_taken false a d d' = (ok a, d')

abbrev pub summary_of : Text → Text → PreparedMessage → MessageSummary
summary_of id now m = record {
  id = id;
  sender = m.sender;
  recipients = m.recipients_json;
  subject = m.subject;
  size = pos m.size;
  has_attachments = m.has_attachments;
  is_read = false;
  is_starred = false;
  tags = codes "[]";
  created_at = now;
}

-- `messages.id` is UNIQUE.
unfoldable pub insert_message_row : MessageSummary → Db → Result ℕ × Db
insert_message_row s d =
    let seq = next_seq d.messages in
    unless_taken (any (λ m. same m.summary.id s.id) d.messages) seq d
      (record d { messages = d.messages ++ record { seq = seq; summary = s } ∷ [] })

unfoldable pub insert_content_row : ℕ → Text → Db → Result {0} Unit × Db
insert_content_row seq raw d =
    unless_taken (any (λ c. c.seq == seq) d.contents) tt d
      (record d { contents = d.contents ++ record { seq = seq; raw = raw } ∷ [] })

abbrev pub locator_of : AttachmentStorage → Option Locator
locator_of (located l) = some l
locator_of (inline c) = none

abbrev pub content_of : AttachmentStorage → Option Text
content_of (located l) = none
content_of (inline c) = some c

abbrev pub attachment_row : Text → ℕ → PreparedAttachment → AttachmentRow
attachment_row id seq a = record {
  id = id;
  message_seq = seq;
  filename = a.filename;
  content_type = a.content_type;
  content_id = a.content_id;
  size = some (pos a.size);
  raw_offset = Option.map (λ l. pos l.offset) (locator_of a.storage);
  raw_len = Option.map (λ l. pos l.len) (locator_of a.storage);
  transfer_encoding = Option.map (λ l. Locator.code l.encoding) (locator_of a.storage);
  content = content_of a.storage;
}

-- `attachments.id` is the primary key.
unfoldable pub insert_attachment_row : AttachmentRow → Db → Result {0} Unit × Db
insert_attachment_row r d =
    unless_taken (any (λ a. same a.id r.id) d.attachments) tt d
      (record d { attachments = d.attachments ++ r ∷ [] })

module _ (w : World) where
  unfoldable pub insert_attachments : ℕ → List PreparedAttachment → Exec {0} Unit
  unfolding ◌>>=◌ ◌>>◌ statement insert_attachment_row
  insert_attachments seq [] = pure tt
  insert_attachments seq (a ∷ rest) = do
    n ← moment
    statement w (insert_attachment_row (attachment_row (w.ulid n) seq a))
    insert_attachments seq rest

  unfoldable pub insert_rows_in : PreparedMessage → Exec (ℕ × MessageSummary)
  unfolding ◌>>=◌ ◌>>◌ statement insert_attachments insert_message_row insert_content_row
  insert_rows_in m = do
    n ← moment
    let summary = summary_of (w.ulid n) (w.now n) m
    seq ← statement w (insert_message_row summary)
    statement w (insert_content_row seq m.compressed_raw)
    insert_attachments seq m.attachments
    pure (seq, summary)

abbrev pub index_row : ℕ × PreparedMessage → IndexRow
index_row (seq, m) = record {
  rowid = seq;
  subject = m.subject;
  text_body = m.text_body;
  sender = m.sender;
  recipients = m.recipients_json;
}

-- The rows of one statement, each refused if its `rowid` is taken.
unfoldable pub index_rows : List (ℕ × PreparedMessage) → List IndexRow → Option (List IndexRow)
index_rows [] table = some table
index_rows (r ∷ rs) table =
    let rest = index_rows rs (table ++ index_row r ∷ []) in
    if any (λ i. i.rowid == r.0) table then none else rest

abbrev indexed : Option (List IndexRow) → Db → Result {0} Unit × Db
indexed none d = (err (database (code 19)), d)
indexed (some table) d = (ok tt, record d { index = table })

unfoldable pub index_chunk : List (ℕ × PreparedMessage) → Db → Result {0} Unit × Db
unfolding index_rows
index_chunk rows d = indexed (index_rows rows d.index) d

abbrev pub fts_rows_per_statement : ℕ
fts_rows_per_statement = 1000

-- `xs.chunks(size)`, for a list of at most `fuel` elements.
unfoldable pub chunks {ℓ} : {A : Type ℓ} → (fuel size : ℕ) → List A → List (List A)
chunks zero size xs = []
chunks (suc fuel) size [] = []
chunks (suc fuel) size (x ∷ xs) = take size (x ∷ xs) ∷ chunks fuel size (drop size (x ∷ xs))

abbrev pub Stored : Type 0
Stored = ℕ × MessageSummary

abbrev pub zip {ℓ κ} : {A : Type ℓ} {B : Type κ} → List A → List B → List (A × B)
zip (x ∷ xs) (y ∷ ys) = (x, y) ∷ zip xs ys
zip _ _ = []

module _ (w : World) where
  unfoldable pub insert_each : List PreparedMessage → Exec (List Stored)
  unfolding ◌>>=◌ ◌>>◌ insert_rows_in
  insert_each [] = pure []
  insert_each (m ∷ ms) = do s ← insert_rows_in w m; rest ← insert_each ms; pure (s ∷ rest)

  unfoldable pub index_in : List (ℕ × PreparedMessage) → Exec {0} Unit
  unfolding statement index_chunk
  index_in rows = statement w (index_chunk rows)

  unfoldable pub index_each : List (List (ℕ × PreparedMessage)) → Exec {0} Unit
  unfolding ◌>>=◌ ◌>>◌ index_in
  index_each [] = pure tt
  index_each (c ∷ cs) = do index_in c; index_each cs

  unfoldable pub insert_all_in : List PreparedMessage → Exec (List MessageSummary)
  unfolding ◌>>=◌ ◌>>◌ insert_each index_each chunks
  insert_all_in ms = do
    stored ← insert_each ms
    index_each (chunks (length ms) fts_rows_per_statement (zip (map (λ s. s.0) stored) ms))
    pure (map (λ s. s.1) stored)

  unfoldable pub insert_batch : List PreparedMessage → Exec (List MessageSummary)
  unfolding transaction insert_all_in retry_on_lock
  insert_batch ms = retry_on_lock w (transaction w (insert_all_in ms))

  -- `remove(0)`. Its panic on an empty list is an error here; one message gives one summary.
  abbrev pub only : List MessageSummary → Exec MessageSummary
  only [] = raise (database other)
  only (s ∷ ss) = pure s

  unfoldable pub insert_prepared : PreparedMessage → Exec MessageSummary
  unfolding transaction insert_all_in retry_on_lock ◌>>=◌
  insert_prepared m = retry_on_lock w (transaction w (insert_all_in (m ∷ []) >>= only))
