-- ===== src/Storage/WellFormed.antt =====
-- What holds of the tables between two writes: the rows of `message_content`, `messages_fts`,
-- `attachments` and `message_tags` belong to the messages, whose keys and identifiers are distinct.
use mathlib.Core.List.{map-append}
use rustmail.Prelude.Text.{Text, same}
use rustmail.Prelude.{
  ℕ, suc, ◌≡◌, ◌<◌, ◌≤◌, refl, sym, ◌∙◌, Bool, true, false, ◌||◌, ◌==◌, Option, List, [], ◌∷◌, ◌++◌,
  map, any, or_false, All, All-append, All-map, Ascending, Ascending-append, has, has-append, arith,
}
use rustmail.Storage.Schema.{
  PreparedAttachment, MessageRow, AttachmentRow, IndexRow, TagRow, Db, seqs, greatest, next_seq,
}
use rustmail.Storage.Insert.Items.{
  Item, item_row, add, add_all, add_rows, attachment_rows, Fits, Fit,
}

abbrev pub DistinctIds : List MessageRow → Type 0
DistinctIds [] = Unit
DistinctIds (m ∷ ms) =
    All (λ (r : MessageRow). same m.summary.id r.summary.id ≡ false) ms × DistinctIds ms

abbrev pub IsListed : List MessageRow → ℕ → Type 0
IsListed ms n = has n (seqs ms) ≡ true

-- What an index row and a message's row have in common.
pub record Entry : Type 0 where
  pub seq : ℕ
  pub subject : Option Text
  pub sender : Text
  pub recipients : Text

abbrev pub index_entry : IndexRow → Entry
index_entry i = record {
  seq = i.rowid;
  subject = i.subject;
  sender = i.sender;
  recipients = i.recipients;
}

abbrev pub message_entry : MessageRow → Entry
message_entry m = record {
  seq = m.seq;
  subject = m.summary.subject;
  sender = m.summary.sender;
  recipients = m.summary.recipients;
}

-- The index has one row for each message, in their order, with its subject, sender and recipients.
abbrev pub Indexed : Db → Type 0
Indexed d = map index_entry d.index ≡ map message_entry d.messages

pub record WellFormed (d : Db) : Type 0 where
  pub ascending : Ascending (seqs d.messages)
  pub ids : DistinctIds d.messages
  pub contents : map (λ c. c.seq) d.contents ≡ seqs d.messages
  pub index : map (λ i. i.rowid) d.index ≡ seqs d.messages
  pub entries : Indexed d
  pub attachments : All (λ (a : AttachmentRow). IsListed d.messages a.message_seq) d.attachments
  pub tags : All (λ (t : TagRow). IsListed d.messages t.message_seq) d.tags

seqs-greatest : (ms : List MessageRow) (n : ℕ) → greatest ms ≤ n → All (λ k. k < suc n) (seqs ms)
seqs-greatest [] n h = tt
seqs-greatest (m ∷ ms) n h = (omega arith, seqs-greatest ms n (omega arith))

-- The key of a new row is above every key in the table.
pub next_seq-above : (ms : List MessageRow) → All (λ k. k < next_seq ms) (seqs ms)
next_seq-above ms = seqs-greatest ms (greatest ms) (omega arith)

ids-append :
    (i : Item) (d : Db) (ms : List MessageRow)
    → any (λ m. same m.summary.id i.id) ms ≡ false
    → DistinctIds ms
    → DistinctIds (ms ++ item_row i d ∷ [])
ids-append i d [] h u = (tt, tt)
ids-append i d (m ∷ ms) h (new, u) =
    let (here, later) = or_false (same m.summary.id i.id) _ h in
    (
      All-append (λ (r : MessageRow). same m.summary.id r.summary.id ≡ false) ms (item_row i d ∷ [])
          new (here, tt),
      ids-append i d ms later u,
    )

last-listed :
    (n : ℕ) (ms : List MessageRow) (r : MessageRow)
    → has n (seqs (ms ++ r ∷ [])) ≡ (has n (seqs ms) || has n (r.seq ∷ []))
last-listed n ms r =
    rw (map-append (λ (m : MessageRow). m.seq) ms (r ∷ [])) (has-append n (seqs ms) (r.seq ∷ []))

or_left : (a b : Bool) → a ≡ true → (a || b) ≡ true
or_left true b e = refl
or_left false b e = cc

still-IsListed :
    (ms : List MessageRow) (r : MessageRow) (n : ℕ) → IsListed ms n → IsListed (ms ++ r ∷ []) n
still-IsListed ms r n h = last-listed n ms r ∙ or_left _ _ h

or_here : (a : Bool) (n : ℕ) → (a || has n (n ∷ [])) ≡ true
or_here a n = ground arith

new-IsListed : (ms : List MessageRow) (r : MessageRow) → IsListed (ms ++ r ∷ []) r.seq
new-IsListed ms r = last-listed r.seq ms r ∙ or_here (has r.seq (seqs ms)) r.seq

attachment_rows-IsListed :
    (ids : List Text) (n : ℕ) (files : List PreparedAttachment) (ms : List MessageRow)
    → IsListed ms n
    → All (λ (a : AttachmentRow). IsListed ms a.message_seq) (attachment_rows ids n files)
attachment_rows-IsListed [] n files ms h = tt
attachment_rows-IsListed (id ∷ ids) n [] ms h = tt
attachment_rows-IsListed (id ∷ ids) n (a ∷ files) ms h =
    (h, attachment_rows-IsListed ids n files ms h)

keys-append {ℓ} :
    {A : Type ℓ} (key : A → ℕ) (xs : List A) (x : A) (ms : List MessageRow) (r : MessageRow)
    → map key xs ≡ seqs ms
    → key x ≡ r.seq
    → map key (xs ++ x ∷ []) ≡ seqs (ms ++ r ∷ [])
keys-append key xs x ms r e k =
    map-append key xs (x ∷ [])
    ∙ rw (e, k) (sym (map-append (λ (m : MessageRow). m.seq) ms (r ∷ [])))

entries-append :
    (xs : List IndexRow) (x : IndexRow) (ms : List MessageRow) (r : MessageRow)
    → map index_entry xs ≡ map message_entry ms
    → index_entry x ≡ message_entry r
    → map index_entry (xs ++ x ∷ []) ≡ map message_entry (ms ++ r ∷ [])
entries-append xs x ms r e k =
    map-append index_entry xs (x ∷ []) ∙ rw (e, k) (sym (map-append message_entry ms (r ∷ [])))

pub add-WellFormed : (i : Item) (d : Db) → Fits i d → WellFormed d → WellFormed (add i d)
add-WellFormed i d f wf =
    let r = item_row i d in
    record {
      ascending = rw (map-append (λ (m : MessageRow). m.seq) d.messages (r ∷ [])) (
          Ascending-append (seqs d.messages) (r.seq ∷ []) wf.ascending (tt, tt)
            (All-map (λ k lt. (lt, tt)) (seqs d.messages) (next_seq-above d.messages)));
      ids = ids-append i d d.messages f.is_new wf.ids;
      contents = keys-append (λ c. c.seq) d.contents _ d.messages r wf.contents refl;
      index = keys-append (λ i. i.rowid) d.index _ d.messages r wf.index refl;
      entries = entries-append d.index _ d.messages r wf.entries refl;
      attachments =
          All-append (λ (a : AttachmentRow). IsListed (d.messages ++ r ∷ []) a.message_seq)
            d.attachments _
            (All-map (λ a. still-IsListed d.messages r a.message_seq) d.attachments wf.attachments)
            (attachment_rows-IsListed i.attachment_ids r.seq i.message.attachments _
              (new-IsListed d.messages r));
      tags = All-map (λ t. still-IsListed d.messages r t.message_seq) d.tags wf.tags;
    }

pub Fit-index :
    (items : List Item) (d : Db) (t : List IndexRow)
    → Fit items d
    → Fit items (record d { index = t })
Fit-index [] d t h = tt
Fit-index (i ∷ items) d t (f, h) =
    (record { is_new = f.is_new; one_each = f.one_each }, Fit-index items (add_rows i d) t h)

pub add_all-WellFormed :
    (items : List Item) (d : Db) → Fit items d → WellFormed d → WellFormed (add_all items d)
add_all-WellFormed [] d h wf = wf
add_all-WellFormed (i ∷ items) d (f, h) wf =
    add_all-WellFormed items (add i d) (Fit-index items (add_rows i d) _ h)
      (add-WellFormed i d f wf)

pub listed_self :
    (ks all : List ℕ)
    → ((k : ℕ) → has k ks ≡ true → has k all ≡ true)
    → All (λ k. has k all ≡ true) ks
listed_self [] all h = tt
listed_self (k ∷ ks) all h =
    (h k (here k (has k ks)), listed_self ks all (λ j e. h j (later j k (has j ks) e)))
  where
    here : (k : ℕ) (b : Bool) → (k == k || b) ≡ true
    here k b = ground arith

    later : (j k : ℕ) (b : Bool) → b ≡ true → (j == k || b) ≡ true
    later j k b e = ground arith
