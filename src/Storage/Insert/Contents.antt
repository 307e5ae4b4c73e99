-- ===== src/Storage/Insert/Contents.antt =====
-- The messages that the tables hold, as they were prepared: what a committed insert adds to them.
use mathlib.Core.List.{append_assoc, append-nil, map-append}
use mathlib.Core.Path.{subst}
use rustmail.Prelude.Text.{Text}
use rustmail.Prelude.{
  ℕ, ◌≡◌, ◌<◌, refl, sym, ap, ◌∙◌, Bool, true, false, Option, none, some, List, [], ◌∷◌, ◌++◌, map,
  length, All, All-map, All-key, arith, keep, first, has, Bool-cases, ==_iff, inl, inr, or_right,
  keep-append, keep-all, keep-none, from_zero, ℤ, pos, ◌==◌,
}
use rustmail.Storage.Schema.{
  PreparedAttachment, AttachmentStorage, located, inline, TransferEncoding, identity,
  quoted_printable, base64, PreparedMessage, MessageRow, AttachmentRow, IndexRow, ContentRow, Db,
  seqs, next_seq,
}
use rustmail.Storage.Locator.{code, from_code}
use rustmail.Storage.Insert.{index_row, attachment_row}
use rustmail.Storage.Insert.Items.{
  Item, item_row, content_row, add, add_rows, add_all, attachment_rows, Fits, Fit, messages_of,
}
use rustmail.Storage.WellFormed.{WellFormed, next_seq-above, add-WellFormed, Fit-index}

abbrev offset_and_len : Option TransferEncoding → Option ℤ → Option ℤ → AttachmentStorage
offset_and_len (some e) (some o) (some l) =
    located (record { offset = from_zero o; len = from_zero l; encoding = e })
offset_and_len _ _ _ = inline []

abbrev storage_of : Option Text → Option ℤ → Option ℤ → Option ℤ → AttachmentStorage
storage_of (some c) k o l = inline c
storage_of none none o l = inline []
storage_of none (some k) o l = offset_and_len (from_code k) o l

abbrev size_of : Option ℤ → ℕ
size_of none = 0
size_of (some n) = from_zero n

-- An attachment's row, as it was prepared.
abbrev pub attachment_of : AttachmentRow → PreparedAttachment
attachment_of r = record {
  filename = r.filename;
  content_type = r.content_type;
  content_id = r.content_id;
  size = size_of r.size;
  storage = storage_of r.content r.transfer_encoding r.raw_offset r.raw_len;
}

abbrev raw_of : Option ContentRow → Text
raw_of none = []
raw_of (some c) = c.raw

abbrev text_of : Option IndexRow → Option Text
text_of none = none
text_of (some i) = i.text_body

abbrev pub message_at : Db → MessageRow → PreparedMessage
message_at d m = record {
  sender = m.summary.sender;
  recipients_json = m.summary.recipients;
  subject = m.summary.subject;
  text_body = text_of (first (keep (λ i. i.rowid == m.seq) d.index));
  size = from_zero m.summary.size;
  compressed_raw = raw_of (first (keep (λ c. c.seq == m.seq) d.contents));
  has_attachments = m.summary.has_attachments;
  attachments = map attachment_of (keep (λ a. a.message_seq == m.seq) d.attachments);
}

-- Every message in the tables, oldest first.
abbrev pub stored_messages : Db → List PreparedMessage
stored_messages d = map (message_at d) d.messages

pub from_code-code : (e : TransferEncoding) → from_code (code e) ≡ some e
unfolding code from_code
from_code-code identity = refl
from_code-code quoted_printable = refl
from_code-code base64 = refl

storage_of-located :
    (o l : ℕ) (e : TransferEncoding)
    → storage_of none (some (code e)) (some (pos o)) (some (pos l))
      ≡ located (record { offset = o; len = l; encoding = e })
storage_of-located o l e = rw (from_code-code e) refl

attachment_of-row :
    (id : Text) (n : ℕ) (a : PreparedAttachment) → attachment_of (attachment_row id n a) ≡ a
attachment_of-row id n a = go a.storage
  where
    go :
        (s : AttachmentStorage)
        → attachment_of (attachment_row id n (record a { storage = s })) ≡ record a { storage = s }
    go (located l) =
        ap (λ (s : AttachmentStorage). record a { storage = s })
          (storage_of-located l.offset l.len l.encoding)
    go (inline c) = refl

attachment_of-rows :
    (ids : List Text) (n : ℕ) (files : List PreparedAttachment)
    → length ids ≡ length files
    → map attachment_of (attachment_rows ids n files) ≡ files
attachment_of-rows [] n [] h = refl
attachment_of-rows [] n (a ∷ files) h = absurd (omega arith)
attachment_of-rows (id ∷ ids) n [] h = absurd (omega arith)
attachment_of-rows (id ∷ ids) n (a ∷ files) h =
    rw (attachment_of-row id n a, attachment_of-rows ids n files (omega arith)) refl

other_false : (a b : ℕ) → a < b → (b == a) ≡ false
other_false a b h = ground arith

below_false : (a b : ℕ) → a < b → (a == b) ≡ false
below_false a b h = ground arith

same_true : (a b : ℕ) → a ≡ b → (a == b) ≡ true
same_true a b h = ground arith

module _ {ℓ} {A : Type ℓ} (key : A → ℕ) where
  abbrev At : ℕ → A → Bool
  At n x = key x == n

  -- Rows with a greater key are not among those with key `n`.
  keep-old :
      (n : ℕ) (xs ys : List A) → All (λ y. n < key y) ys → keep (At n) (xs ++ ys) ≡ keep (At n) xs
  keep-old n xs ys h =
      keep-append (At n) xs ys
      ∙ rw (keep-none (At n) ys (All-map (λ y lt. other_false n (key y) lt) ys h)) (append-nil _)

  -- The rows with a new key are the new rows.
  keep-new :
      (n : ℕ) (xs ys : List A)
      → All (λ x. key x < n) xs
      → All (λ y. key y ≡ n) ys
      → keep (At n) (xs ++ ys) ≡ ys
  keep-new n xs ys h k =
      keep-append (At n) xs ys
      ∙ rw (keep-none (At n) xs (All-map (λ x lt. below_false (key x) n lt) xs h))
          (keep-all (At n) ys (All-map (λ y e. same_true (key y) n e) ys k))

  keys-below :
      (xs : List A) (ms : List MessageRow)
      → map key xs ≡ seqs ms
      → All (λ x. key x < next_seq ms) xs
  keys-below xs ms e =
      All-key key (λ k. k < next_seq ms) xs
        (subst (λ ks. All (λ k. k < next_seq ms) ks) (sym e) (next_seq-above ms))

has-lt : (n m : ℕ) (ks : List ℕ) → has n ks ≡ true → All (λ k. k < m) ks → n < m
has-lt n m [] e h = absurd (cc)
has-lt n m (k ∷ ks) e (lt, h) = elim (Bool-cases (n == k)) [
  | inl here ↦ rw ((==_iff n k).0 here) lt
  | inr later ↦ has-lt n m ks (or_right _ _ later e) h
]

rows-message_seq :
    (ids : List Text) (n : ℕ) (files : List PreparedAttachment)
    → All (λ (a : AttachmentRow). a.message_seq ≡ n) (attachment_rows ids n files)
rows-message_seq [] n files = tt
rows-message_seq (id ∷ ids) n [] = tt
rows-message_seq (id ∷ ids) n (a ∷ files) = (refl, rows-message_seq ids n files)

attachments-below :
    (d : Db)
    → WellFormed d
    → All (λ (a : AttachmentRow). a.message_seq < next_seq d.messages) d.attachments
attachments-below d wf =
    All-map (λ a listed. has-lt a.message_seq _ _ listed (next_seq-above d.messages)) d.attachments
      wf.attachments

-- A message keeps what it was stored with when another one is added.
message_at-add :
    (i : Item) (d : Db) (m : MessageRow)
    → m.seq < next_seq d.messages
    → message_at (add i d) m ≡ message_at d m
message_at-add i d m lt =
    let n = next_seq d.messages in
    rw
      (
        keep-old (λ (r : IndexRow). r.rowid) m.seq d.index (index_row (n, i.message) ∷ []) (lt, tt),
        keep-old (λ (r : ContentRow). r.seq) m.seq d.contents (content_row n i.message ∷ [])
            (lt, tt),
        keep-old (λ (r : AttachmentRow). r.message_seq) m.seq d.attachments
            (attachment_rows i.attachment_ids n i.message.attachments)
            (All-map (λ (r : AttachmentRow) e. subst (λ k. m.seq < k) (sym e) lt) _
              (rows-message_seq i.attachment_ids n i.message.attachments)),
      )
      refl

message_at-new :
    (i : Item) (d : Db) → Fits i d → WellFormed d → message_at (add i d) (item_row i d) ≡ i.message
message_at-new i d f wf =
    let n = next_seq d.messages in
    rw
      (
        keep-new (λ (r : IndexRow). r.rowid) n d.index (index_row (n, i.message) ∷ [])
            (keys-below (λ (r : IndexRow). r.rowid) d.index d.messages wf.index) (refl, tt),
        keep-new (λ (r : ContentRow). r.seq) n d.contents (content_row n i.message ∷ [])
            (keys-below (λ (r : ContentRow). r.seq) d.contents d.messages wf.contents) (refl, tt),
        keep-new (λ (r : AttachmentRow). r.message_seq) n d.attachments
            (attachment_rows i.attachment_ids n i.message.attachments) (attachments-below d wf)
            (rows-message_seq i.attachment_ids n i.message.attachments),
        attachment_of-rows i.attachment_ids n i.message.attachments f.one_each,
      )
      refl

messages-add :
    (i : Item) (d : Db) (ms : List MessageRow)
    → All (λ k. k < next_seq d.messages) (seqs ms)
    → map (message_at (add i d)) ms ≡ map (message_at d) ms
messages-add i d [] h = refl
messages-add i d (m ∷ ms) (lt, h) = rw (message_at-add i d m lt, messages-add i d ms h) refl

stored_messages-add :
    (i : Item) (d : Db)
    → Fits i d
    → WellFormed d
    → stored_messages (add i d) ≡ stored_messages d ++ i.message ∷ []
stored_messages-add i d f wf =
    map-append (message_at (add i d)) d.messages (item_row i d ∷ [])
    ∙ rw (messages-add i d d.messages (next_seq-above d.messages), message_at-new i d f wf) refl

-- What was added is what was prepared, whole and in order.
pub stored_messages-add_all :
    (items : List Item) (d : Db)
    → Fit items d
    → WellFormed d
    → stored_messages (add_all items d) ≡ stored_messages d ++ messages_of items
stored_messages-add_all [] d h wf = sym (append-nil _)
stored_messages-add_all (i ∷ items) d (f, h) wf =
    stored_messages-add_all items (add i d) (Fit-index items (add_rows i d) _ h)
      (add-WellFormed i d f wf)
    ∙ rw (stored_messages-add i d f wf)
        (append_assoc (stored_messages d) (i.message ∷ []) (messages_of items))
