-- ===== src/Storage/Tests.antt =====
-- A small database, a world in which nothing fails, and the instances of the theorems on storage.
use rustmail.Prelude.Text.{Text, codes, same, lower_char}
use rustmail.Prelude.{
  ℕ, suc, ◌≡◌, ◌≢◌, ◌≤◌, ◌*◌, ◌++◌, refl, Bool, true, false, Option, none, some, List, [], ◌∷◌,
  length, take, get_elem?, arith, pos, negsuc, keep, without, ltb, ◌==◌, String, is_empty,
  if◌then◌else◌,
}
use rustmail.Smtp.Session.{ReceivedMessage}
use rustmail.Server.Batch
use rustmail.Server.Batch.{Store}
use rustmail.Server.Batch.Outcome.{outcome}
use rustmail.Storage.Schema.{
  identity, base64, PreparedMessage, MessageSummary, MessageRow, ContentRow, IndexRow,
}
use rustmail.Storage.Exec.{World, Conn, ok, Exec, raise, retry_on_lock}
use rustmail.Storage.Exec.Holds.{Ends, EndsWith}
use rustmail.Storage.Exec.Retries.{Settles, retry_on_lock-Settles}
use rustmail.Storage.Error.{database, code}
use rustmail.Storage.Insert.{insert_batch}
use rustmail.Storage.Insert.Contents.{stored_messages}
use rustmail.Storage.WellFormed.{WellFormed, Indexed}
use rustmail.Storage.Delete.{delete, delete_older_than, trim_to_max, is_older}
use rustmail.Storage.Delete.One.{Deleted, Missing, delete-EndsWith}
use rustmail.Storage.Delete.Leaves.{
  Leaves, oldest, newest, trim_to_max-Leaves, delete_older_than-Leaves,
}
use rustmail.Storage.Read.{
  no_filter, offset, before, list_statement, list_page, passes, count_filtered, search_page,
  search_count_filtered,
}
use rustmail.Storage.Read.Pages.{listing, list_statement-before}
use rustmail.Storage.Read.Counts.{
  counted, count_filtered-list_page, search_count_filtered-search_page,
}
use rustmail.Storage.Content.{Zstd, known}
use rustmail.Storage.Locator.{Decoders, MessagePart, binary, predicted_base64_len}
use rustmail.Storage.Locator.Predicts.{predicted_base64_len-bound}
use rustmail.Storage.Insert.{attachment_row}
use rustmail.Storage.Attachments.{joined_row, into_attachment, stored_part}
use rustmail.Storage.Attachments.Serves.{Lossless, served, into_attachment-stored_part}
use rustmail.Storage.Exec.Holds.{Holds}
use rustmail.Prelude.{map}
use rustmail.Storage.Like.{like, escape_like, column_matches}
use rustmail.Storage.Like.Contains.{contains, like-contains}
use rustmail.Storage.Refines.{
  Stores, repository, tables, accepted_messages, insert_batch-Stores, persisted-repository,
}
use rustmail.Server.Transactions.{Delivery}

-- Each moment mints another identifier.
abbrev pub quiet : World
quiet = record {
  fault = λ n. none;
  ulid = λ n. n ∷ [];
  now = λ n. codes "2026";
  late = λ s n. false;
}

abbrev mail : String → PreparedMessage
mail s = record {
  sender = codes "a";
  recipients_json = codes "[]";
  subject = some (codes s);
  text_body = none;
  size = 3;
  compressed_raw = codes s;
  has_attachments = false;
  attachments = [];
}

abbrev summary : Text → Text → MessageSummary
summary id at = record {
  id = id;
  sender = codes "a";
  recipients = codes "[]";
  subject = some (codes "s");
  size = pos 3;
  has_attachments = false;
  is_read = false;
  is_starred = false;
  tags = codes "[]";
  created_at = at;
}

abbrev row : ℕ → MessageRow
row n = record { seq = n; summary = summary (n ∷ []) (n ∷ []) }

abbrev content : ℕ → ContentRow
content n = record { seq = n; raw = codes "raw" }

abbrev indexed : ℕ → IndexRow
indexed n = record {
  rowid = n;
  subject = some (codes "s");
  text_body = none;
  sender = codes "a";
  recipients = codes "[]";
}

abbrev pub two : Conn
two = record {
  db = record {
    messages = row 4 ∷ row 7 ∷ [];
    contents = content 4 ∷ content 7 ∷ [];
    attachments = [];
    index = indexed 4 ∷ indexed 7 ∷ [];
    tags = [];
  };
  moment = 100;
}

pub two-WellFormed : WellFormed two.db
unfolding same
two-WellFormed = record {
  ascending = ((omega arith, tt), (tt, tt));
  ids = ((refl, tt), (tt, tt));
  contents = refl;
  index = refl;
  entries = refl;
  attachments = tt;
  tags = tt;
}

abbrev batch : List PreparedMessage
batch = mail "one" ∷ mail "two" ∷ []

-- The batch goes in.
inserted :
    (insert_batch quiet batch two).1.db.messages
    ≡ row 4
      ∷ row 7
      ∷ record {
        seq = 8;
        summary = record (summary (101 ∷ []) (codes "2026")) { subject = some (codes "one") };
      }
      ∷ record {
        seq = 9;
        summary = record (summary (103 ∷ []) (codes "2026")) { subject = some (codes "two") };
      }
      ∷ []
unfolding insert_batch same
inserted = refl

insert_batch-Stores_example : Ends (Stores batch) two.db (insert_batch quiet batch two)
insert_batch-Stores_example = insert_batch-Stores quiet batch two two-WellFormed

delete-EndsWith_example :
    EndsWith quiet
      (Deleted quiet (7 ∷ []))
      (Missing quiet (7 ∷ []) two.db)
      two.db
      (delete quiet (7 ∷ []) two)
delete-EndsWith_example = delete-EndsWith quiet (7 ∷ []) two two-WellFormed

trim_to_max-Leaves_example :
    Ends
      (λ d ids d'. Leaves (oldest (pos 1) d) (newest (pos 1) d) d ids d')
      two.db
      (trim_to_max quiet (pos 1) two)
trim_to_max-Leaves_example = trim_to_max-Leaves quiet (pos 1) two two-WellFormed

-- Texts compared by their first character.
abbrev pub earlier : Text → Text → Bool
earlier (a ∷ s) (b ∷ t) = ltb a b
earlier _ _ = false

delete_older_than-Leaves_example :
    Ends
      (λ d ids d'.
        Leaves
          (keep (is_older quiet earlier (5 ∷ [])) d.messages)
          (without (is_older quiet earlier (5 ∷ [])) d.messages)
          d
          ids
          d')
      two.db
      (delete_older_than quiet earlier (5 ∷ []) two)
delete_older_than-Leaves_example =
    delete_older_than-Leaves quiet earlier (5 ∷ []) two two-WellFormed

newest_listed : list_statement no_filter (offset (pos 0)) (pos 1) two.db ≡ row 7 ∷ []
unfolding list_statement
newest_listed = refl

listed_first : get_elem? (listing no_filter two.db) 0 ≡ some (row 7)
unfolding passes
listed_first = refl

list_statement-before_example :
    list_statement no_filter (before 7) (pos 5) two.db
    ≡ list_statement no_filter (offset (pos 1)) (pos 5) two.db
list_statement-before_example =
    list_statement-before no_filter two.db 0 (row 7) (pos 5) two-WellFormed listed_first

count_filtered-list_page_example :
    count_filtered quiet (record no_filter { unread = true }) two
    ≡ counted (list_page quiet (record no_filter { unread = true }) (offset (pos 0)) (negsuc 0) two)
count_filtered-list_page_example =
    count_filtered-list_page quiet (record no_filter { unread = true }) two

abbrev pub is_letter : ℕ → Bool
is_letter c = ltb 64 c

abbrev pub finds : Text → IndexRow → Bool
finds q i = i.rowid == 7

search_count_filtered-search_page_example :
    search_count_filtered is_letter finds quiet (codes "word") no_filter two
    ≡ counted
        (search_page is_letter finds quiet (codes "word") no_filter (offset (pos 0)) (negsuc 0) two)
search_count_filtered-search_page_example =
    search_count_filtered-search_page is_letter finds quiet (codes "word") no_filter two
      two-WellFormed

-- Frames that are the source itself.
abbrev pub plain : Zstd
plain = record {
  compress = λ raw. some raw;
  frame_size = λ frame. known (length frame);
  bulk_decompress = λ frame capacity. some frame;
  stream_decompress = λ frame most. some (take most frame);
}

plain-Lossless : Lossless plain
plain-Lossless = record { declares_size = λ raw frame e. cc; gives_back = λ raw frame e. cc }

abbrev pub no_decoders : Decoders
no_decoders = record { quoted_printable_decode = λ t. none; base64_decode = λ t. none }

abbrev pdf : MessagePart
pdf = record {
  body = binary;
  contents = codes "df";
  attachment_name = none;
  content_type = some (codes "a/b");
  content_id = none;
  is_encoding_problem = false;
  encoding = identity;
  offset_body = 1;
  offset_end = 3;
}

abbrev source_row : MessageRow
source_row = record {
  seq = 1;
  summary = record (summary (codes "m") (codes "2026")) { size = pos 3 };
}

identity-ne-base64 : identity ≢ base64
identity-ne-base64 e = cc

into_attachment-stored_part_example :
    into_attachment plain no_decoders (
      joined_row
        (attachment_row (codes "x") 1 (stored_part no_decoders (codes "pdf") pdf))
        source_row
        (record { seq = 1; raw = codes "pdf" }))
    ≡ ok (served (codes "x") source_row pdf)
into_attachment-stored_part_example =
    into_attachment-stored_part plain no_decoders plain-Lossless (codes "pdf") pdf (codes "x") 1
      source_row (record { seq = 1; raw = codes "pdf" }) (omega arith) identity-ne-base64 refl refl

predicted_quad : predicted_base64_len (codes "QUJD") ≡ some 3
unfolding predicted_base64_len
predicted_quad = refl

predicted_base64_len-bound_example : 4 * 3 ≤ 3 * length (codes "QUJD")
predicted_base64_len-bound_example = predicted_base64_len-bound (codes "QUJD") 3 predicted_quad

-- An attempt that always finds the database locked.
abbrev locked : Exec ℕ
locked c = raise (database (code 5)) (record c { moment = suc c.moment })

retry_on_lock-Settles_example : Settles quiet 100 0 locked two (retry_on_lock quiet locked two)
retry_on_lock-Settles_example = retry_on_lock-Settles quiet locked two

five_attempts : (retry_on_lock quiet locked two).1.moment ≡ 109
unfolding retry_on_lock
five_attempts = refl

abbrev parsed : ReceivedMessage → Option PreparedMessage
parsed m = if is_empty m.raw then none else some (record (mail "in") { sender = m.sender })

abbrev deliveries : List Delivery
deliveries =
    record { message = record { sender = codes "b"; recipients = []; raw = codes "x" }; ack = 1 }
    ∷ []

unfoldable at_start : (repository quiet parsed).State
unfolding repository
at_start = (two, two-WellFormed)

abbrev present : Batch.World (repository quiet parsed)
present = record { abandoned = λ l d. false; late = λ l. false }

persisted-repository_example :
    (stored_messages (
        tables quiet parsed (outcome (repository quiet parsed) present deliveries at_start).0.state)
      ≡ stored_messages (tables quiet parsed at_start)
        ++ accepted_messages quiet parsed
            (outcome (repository quiet parsed) present deliveries at_start).0.log)
    × Indexed (
        tables quiet parsed (outcome (repository quiet parsed) present deliveries at_start).0.state)
persisted-repository_example = persisted-repository quiet parsed present deliveries at_start

abbrev no_tags : Text → List Text
no_tags s = []

abbrev no_json : List Text → Text
no_json tags = codes "[]"

-- A percent sign that is looked for is no wildcard.
like-contains_example :
    like false (b'%' ∷ (escape_like (codes "5%") ++ b'%' ∷ [])) (codes "at 5% off")
    ≡ contains (codes "5%") (codes "at 5% off")
like-contains_example = like-contains (codes "5%") (codes "at 5% off")

not_a_wildcard : contains (codes "5%") (codes "at 55 off") ≡ false
unfolding lower_char
not_a_wildcard = refl

-- A subject that is looked for exactly as it is spelled is not found where it holds a capital
-- letter outside ASCII, which `to_lowercase` changes and `LOWER` does not.
abbrev unicode_lower : Text → Text
unicode_lower = map (λ c. if c == 201 then 233 else c)

capital_missed : column_matches unicode_lower (some (201 ∷ [])) (some (201 ∷ [])) ≡ false
unfolding column_matches
capital_missed = refl
