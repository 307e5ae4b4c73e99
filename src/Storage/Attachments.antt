-- ===== src/Storage/Attachments.antt =====
-- The reads of one message in crates/rustmail-storage/src/repo.rs: its source, its bodies and its
-- attachments; and the parts that prepared.rs stores.
pub mod Serves
use mathlib.Core.Option
use rustmail.Prelude.Text.{Text, same}
use rustmail.Prelude.{
  ℕ, ◌+◌, ◌^◌, Bool, true, false, not, ◌&&◌, ◌||◌, ◌==◌, Option, none, some, List, [], ◌∷◌, ◌++◌,
  map, length, is_empty, has, keep, first, take, drop, leb, ltb, ℤ, pos, negsuc, from_zero,
  if◌then◌else◌,
}
use rustmail.Storage.Schema.{
  TransferEncoding, Locator, AttachmentStorage, located, inline, PreparedAttachment,
  PreparedMessage, MessageSummary, MessageRow, ContentRow, AttachmentRow, Db,
}
use rustmail.Storage.Error.{StorageError, not_found, attachment_corrupt}
use rustmail.Storage.Exec.{Result, ok, err, World, Exec, lift, raise, ◌>>=◌, statement}
use rustmail.Storage.Content.{Zstd, decompress, decompress_prefix}
use rustmail.Storage.Locator.{
  Decoders, decode, from_code, MessagePart, PartType, inline_binary, part_contents, locate,
}
use rustmail.Storage.Delete.{read, has_id}

pub record Attachment : Type 0 where
  pub id : Text
  pub message_id : Text
  pub filename : Option Text
  pub content_type : Option Text
  pub content_id : Option Text
  pub size : Option ℤ
  pub content : Text

-- The columns that are read of an attachment, its message and the message's source.
pub record JoinedRow : Type 0 where
  pub id : Text
  pub message_id : Text
  pub filename : Option Text
  pub content_type : Option Text
  pub content_id : Option Text
  pub size : Option ℤ
  pub content : Option Text
  pub raw_offset : Option ℤ
  pub raw_len : Option ℤ
  pub transfer_encoding : Option ℤ
  pub raw_size : ℤ
  pub compressed_raw : Option Text

-- `CASE WHEN a.raw_offset IS NULL THEN NULL ELSE c.raw END`
abbrev source_of : Option ℤ → Text → Option Text
source_of none raw = none
source_of (some o) raw = some raw

abbrev pub joined_row : AttachmentRow → MessageRow → ContentRow → JoinedRow
joined_row a m c = record {
  id = a.id;
  message_id = m.summary.id;
  filename = a.filename;
  content_type = a.content_type;
  content_id = a.content_id;
  size = a.size;
  content = a.content;
  raw_offset = a.raw_offset;
  raw_len = a.raw_len;
  transfer_encoding = a.transfer_encoding;
  raw_size = m.summary.size;
  compressed_raw = source_of a.raw_offset c.raw;
}

abbrev each {ℓ κ} : {A : Type ℓ} {B : Type κ} → (A → List B) → List A → List B
each f [] = []
each f (x ∷ xs) = f x ++ each f xs

-- The three tables joined by `seq`, in the order of the attachments.
abbrev pub joined_rows : (AttachmentRow → Bool) → Text → Db → List JoinedRow
joined_rows p id d =
    each
      (λ a.
        each (λ m. map (joined_row a m) (keep (λ c. c.seq == m.seq) d.contents))
          (keep (λ m. m.seq == a.message_seq && has_id id m) d.messages))
      (keep p d.attachments)

abbrev not_negative : Option ℤ → Option ℕ
not_negative (some (pos n)) = some n
not_negative _ = none

-- `raw.get(offset..offset.checked_add(len)?)`; the sum stays below 2 ^ 64.
abbrev pub slice : Text → Option ℕ → Option ℕ → Option Text
slice raw (some o) (some l) =
    if ltb (o + l) (2 ^ 64) && leb (o + l) (length raw) then some (take l (drop o raw)) else none
slice raw _ _ = none

module _ (z : Zstd) (ds : Decoders) where
  abbrev code_of : Option ℤ → Option TransferEncoding
  code_of none = none
  code_of (some k) = from_code k

  abbrev decoded_by : Option TransferEncoding → Option Text → Option Text
  decoded_by (some e) (some body) = decode ds e body
  decoded_by _ _ = none

  -- The contents, or the size that they decoded to.
  pub data Contents : Type 0 where
    whole : Text → Contents
    corrupt : Option ℤ → Contents

  abbrev is_size : Option ℤ → ℕ → Bool
  is_size (some (pos n)) m = n == m
  is_size _ m = false

  abbrev checked : Option ℤ → Option Text → Contents
  checked size none = corrupt none
  checked size (some decoded) =
      if is_size size (length decoded) then whole decoded else corrupt (some (pos (length decoded)))

  abbrev contents : JoinedRow → Option Text → Option Text → Contents
  contents r (some content) none = whole content
  contents r none (some raw) = checked r.size (
      decoded_by (code_of r.transfer_encoding)
        (slice raw (not_negative r.raw_offset) (not_negative r.raw_len)))
  contents r _ _ = corrupt none

  abbrev attachment_of : JoinedRow → Contents → Result Attachment
  attachment_of r (whole content) = ok record {
    id = r.id;
    message_id = r.message_id;
    filename = r.filename;
    content_type = r.content_type;
    content_id = r.content_id;
    size = r.size;
    content = content;
  }
  attachment_of r (corrupt actual_size) =
      err (attachment_corrupt r.message_id r.id r.transfer_encoding r.size actual_size)

  abbrev with_raw : JoinedRow → Result Text → Result Attachment
  with_raw r (ok raw) = attachment_of r (contents r r.content (some raw))
  with_raw r (err e) = err e

  abbrev from_source : JoinedRow → Option Text → Result Attachment
  from_source r none = attachment_of r (contents r r.content none)
  from_source r (some frame) = with_raw r (decompress z frame r.raw_size r.message_id)

  unfoldable pub into_attachment : JoinedRow → Result Attachment
  unfolding decompress decode from_code
  into_attachment r = from_source r r.compressed_raw

  module _ (w : World) where
    abbrev or_missing : Text → Option JoinedRow → Exec Attachment
    or_missing id none = raise (not_found id)
    or_missing id (some r) = lift (into_attachment r)

    unfoldable pub get_attachment : (message_id attachment_id : Text) → Exec Attachment
    unfolding ◌>>=◌ statement into_attachment
    get_attachment message_id attachment_id =
        read w (λ d. first (joined_rows (λ a. same a.id attachment_id) message_id d))
        >>= or_missing attachment_id

    abbrev has_content_id : Text → Option Text → Bool
    has_content_id id none = false
    has_content_id id (some cid) = same cid id

    unfoldable pub get_attachment_by_content_id : (message_id content_id : Text) → Exec Attachment
    unfolding ◌>>=◌ statement into_attachment
    get_attachment_by_content_id message_id content_id =
        read w (λ d. first (joined_rows (λ a. has_content_id content_id a.content_id) message_id d))
        >>= or_missing content_id

    -- The frame and the recorded size of a message.
    abbrev pub frames_of : Text → Db → List (Text × ℤ)
    frames_of id d =
        each
          (λ m.
            map (λ (c : ContentRow). (c.raw, m.summary.size))
              (keep (λ c. c.seq == m.seq) d.contents))
          (keep (has_id id) d.messages)

    abbrev pub decompressed : Text → Option (Text × ℤ) → Exec Text
    decompressed id none = raise (not_found id)
    decompressed id (some (frame, size)) = lift (decompress z frame size id)

    unfoldable pub get_raw : Text → Exec Text
    unfolding ◌>>=◌ statement decompress
    get_raw id = read w (λ d. first (frames_of id d)) >>= decompressed id

    abbrev pub decompressed_prefix : Text → ℤ → Option (Text × ℤ) → Exec Text
    decompressed_prefix id most none = raise (not_found id)
    decompressed_prefix id most (some (frame, size)) =
        lift (decompress_prefix z frame (from_zero most) id)

    unfoldable pub get_raw_prefix : Text → ℤ → Exec Text
    unfolding ◌>>=◌ statement decompress_prefix
    get_raw_prefix id max_bytes =
        read w (λ d. first (frames_of id d)) >>= decompressed_prefix id max_bytes

-- `stored_parts` of prepared.rs.
module _ (ds : Decoders) where
  abbrev stored_as : Text → Option Locator → AttachmentStorage
  stored_as contents none = inline contents
  stored_as contents (some l) = located l

  unfoldable pub stored_part : Text → MessagePart → PreparedAttachment
  unfolding locate part_contents
  stored_part raw part = record {
    filename = part.attachment_name;
    content_type = part.content_type;
    content_id = part.content_id;
    size = length (part_contents part);
    storage = stored_as (part_contents part) (locate ds raw part);
  }

  abbrev is_inline : PartType → Bool
  is_inline inline_binary = true
  is_inline _ = false

  abbrev stored_refs : List ℕ → ℕ → List MessagePart → List MessagePart
  stored_refs attachment_ids idx [] = []
  stored_refs attachment_ids idx (part ∷ parts) =
      let rest = stored_refs attachment_ids (idx + 1) parts in
      if (has idx attachment_ids || is_inline part.body) && not (is_empty (part_contents part))
      then part ∷ rest
      else rest

  unfoldable pub stored_parts : Text → List ℕ → List MessagePart → List PreparedAttachment
  unfolding stored_part part_contents
  stored_parts raw attachment_ids parts = map (stored_part raw) (stored_refs attachment_ids 0 parts)

-- What the MIME parser reads in a message.
pub record Parsed : Type 0 where
  pub subject : Option Text
  pub text_body : Option Text
  pub attachment_count : ℕ
  pub attachments : List ℕ
  pub parts : List MessagePart

-- `PreparedMessage::parse`, over the MIME parser and serde_json. None stands for the error that
-- compression gives.
module _ (z : Zstd) (ds : Decoders) (parse : Text → Option Parsed)
    (to_json : List Text → Text) where
  abbrev prepared : Text → List Text → Text → Option Parsed → Text → PreparedMessage
  prepared sender recipients raw none frame = record {
    sender = sender;
    recipients_json = to_json recipients;
    subject = none;
    text_body = none;
    size = length raw;
    compressed_raw = frame;
    has_attachments = false;
    attachments = [];
  }
  prepared sender recipients raw (some m) frame = record {
    sender = sender;
    recipients_json = to_json recipients;
    subject = m.subject;
    text_body = m.text_body;
    size = length raw;
    compressed_raw = frame;
    has_attachments = ltb 0 m.attachment_count;
    attachments = stored_parts ds raw m.attachments m.parts;
  }

  unfoldable pub prepare : Text → List Text → Text → Option PreparedMessage
  unfolding stored_parts
  prepare sender recipients raw =
      Option.map (prepared sender recipients raw (parse raw)) (z.compress raw)
