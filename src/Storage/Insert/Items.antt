-- ===== src/Storage/Insert/Items.antt =====
-- What an insert that commits has added: a message with its content, attachment and index rows.
use mathlib.Core.List.{append_assoc, append-nil}
use rustmail.Prelude.Text.{Text, same}
use rustmail.Prelude.{ℕ, ◌≡◌, refl, false, List, [], ◌∷◌, ◌++◌, map, length, any}
use rustmail.Storage.Schema.{
  PreparedAttachment, PreparedMessage, MessageSummary, MessageRow, ContentRow, AttachmentRow,
  IndexRow, Db, next_seq,
}
use rustmail.Storage.Insert.{summary_of, attachment_row, index_row, zip}

pub record Item : Type 0 where
  pub id : Text
  pub now : Text
  pub message : PreparedMessage
  pub attachment_ids : List Text

abbrev pub item_summary : Item → MessageSummary
item_summary i = summary_of i.id i.now i.message

abbrev pub attachment_rows : List Text → ℕ → List PreparedAttachment → List AttachmentRow
attachment_rows (id ∷ ids) seq (a ∷ rest) = attachment_row id seq a ∷ attachment_rows ids seq rest
attachment_rows _ seq _ = []

abbrev pub item_row : Item → Db → MessageRow
item_row i d = record { seq = next_seq d.messages; summary = item_summary i }

abbrev pub content_row : ℕ → PreparedMessage → ContentRow
content_row n m = record { seq = n; raw = m.compressed_raw }

-- All but the index.
abbrev pub add_rows : Item → Db → Db
add_rows i d = record {
  messages = d.messages ++ item_row i d ∷ [];
  contents = d.contents ++ content_row (next_seq d.messages) i.message ∷ [];
  attachments =
      d.attachments ++ attachment_rows i.attachment_ids (next_seq d.messages) i.message.attachments;
  index = d.index;
  tags = d.tags;
}

abbrev pub add_all_rows : List Item → Db → Db
add_all_rows [] d = d
add_all_rows (i ∷ items) d = add_all_rows items (add_rows i d)

-- The message as it is stored in the end.
abbrev pub add : Item → Db → Db
add i d = record (add_rows i d) {
  index = d.index ++ index_row (next_seq d.messages, i.message) ∷ [];
}

abbrev pub add_all : List Item → Db → Db
add_all [] d = d
add_all (i ∷ items) d = add_all items (add i d)

abbrev pub numbers : List Item → Db → List ℕ
numbers [] d = []
numbers (i ∷ items) d = next_seq d.messages ∷ numbers items (add_rows i d)

-- The identifier is new, and each attachment has one.
pub record Fits (i : Item) (d : Db) : Type 0 where
  pub is_new : any (λ m. same m.summary.id i.id) d.messages ≡ false
  pub one_each : length i.attachment_ids ≡ length i.message.attachments

abbrev pub Fit : List Item → Db → Type 0
Fit [] d = Unit
Fit (i ∷ items) d = Fits i d × Fit items (add_rows i d)

abbrev pub messages_of : List Item → List PreparedMessage
messages_of = map (λ i. i.message)

-- Indexing the messages at the end leaves what indexing each with its rows leaves.
pub add_all-rows :
    (items : List Item) (d : Db)
    → record (add_all_rows items d) {
      index = d.index ++ map index_row (zip (numbers items d) (messages_of items));
    }
      ≡ add_all items d
add_all-rows items d = go items d d.index
  where
    go :
        (items : List Item) (d : Db) (table : List IndexRow)
        → record (add_all_rows items d) {
          index = table ++ map index_row (zip (numbers items d) (messages_of items));
        }
          ≡ add_all items (record d { index = table })
    go [] d table = rw append-nil refl
    go (i ∷ items) d table =
        rw (← append_assoc table (index_row (next_seq d.messages, i.message) ∷ []) _)
          (go items (add_rows i d) (table ++ index_row (next_seq d.messages, i.message) ∷ []))

pub record Added (d : Db) (ms : List PreparedMessage) (ss : List MessageSummary) (d' : Db)
    : Type 0 where
  pub items : List Item
  pub fit : Fit items d
  pub sources : messages_of items ≡ ms
  pub answers : ss ≡ map item_summary items
  pub result : d' ≡ add_all items d
