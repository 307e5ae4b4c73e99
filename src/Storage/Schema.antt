-- ===== src/Storage/Schema.antt =====
-- The tables of crates/rustmail-storage/src/schema.rs and the types of prepared.rs, models.rs,
-- locator.rs: what one database holds.
use rustmail.Prelude.Text.{Text}
use rustmail.Prelude.{ℕ, suc, Bool, Option, List, [], ◌∷◌, map, ℤ, max}

-- How a located part's body is encoded in the raw message.
pub data TransferEncoding : Type 0 where
  identity quoted_printable base64 : TransferEncoding

pub record Locator : Type 0 where
  pub offset : ℕ
  pub len : ℕ
  pub encoding : TransferEncoding

pub data AttachmentStorage : Type 0 where
  located : Locator → AttachmentStorage
  inline : Text → AttachmentStorage

pub record PreparedAttachment : Type 0 where
  pub filename : Option Text
  pub content_type : Option Text
  pub content_id : Option Text
  pub size : ℕ
  pub storage : AttachmentStorage

-- Bytes are a list of numbers too.
pub record PreparedMessage : Type 0 where
  pub sender : Text
  pub recipients_json : Text
  pub subject : Option Text
  pub text_body : Option Text
  pub size : ℕ
  pub compressed_raw : Text
  pub has_attachments : Bool
  pub attachments : List PreparedAttachment

-- A row of `messages` without its `seq`.
pub record MessageSummary : Type 0 where
  pub id : Text
  pub sender : Text
  pub recipients : Text
  pub subject : Option Text
  pub size : ℤ
  pub has_attachments : Bool
  pub is_read : Bool
  pub is_starred : Bool
  pub tags : Text
  pub created_at : Text

pub record MessageRow : Type 0 where
  pub seq : ℕ
  pub summary : MessageSummary

pub record ContentRow : Type 0 where
  pub seq : ℕ
  pub raw : Text

pub record AttachmentRow : Type 0 where
  pub id : Text
  pub message_seq : ℕ
  pub filename : Option Text
  pub content_type : Option Text
  pub content_id : Option Text
  pub size : Option ℤ
  pub raw_offset : Option ℤ
  pub raw_len : Option ℤ
  pub transfer_encoding : Option ℤ
  pub content : Option Text

-- A row of the contentless index `messages_fts`: what it was given, which only `MATCH` reads.
pub record IndexRow : Type 0 where
  pub rowid : ℕ
  pub subject : Option Text
  pub text_body : Option Text
  pub sender : Text
  pub recipients : Text

pub record TagRow : Type 0 where
  pub tag : Text
  pub message_seq : ℕ

-- `messages`, `message_content` and `messages_fts` are listed by their key; `attachments` by `rowid`.
pub record Db : Type 0 where
  pub messages : List MessageRow
  pub contents : List ContentRow
  pub attachments : List AttachmentRow
  pub index : List IndexRow
  pub tags : List TagRow

abbrev pub seqs : List MessageRow → List ℕ
seqs = map (λ m. m.seq)

abbrev pub greatest : List MessageRow → ℕ
greatest [] = 0
greatest (m ∷ ms) = max m.seq (greatest ms)

-- The `INTEGER PRIMARY KEY` of a new row: one more than the greatest in the table.
abbrev pub next_seq : List MessageRow → ℕ
next_seq ms = suc (greatest ms)
