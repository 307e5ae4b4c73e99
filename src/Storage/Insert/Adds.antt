-- ===== src/Storage/Insert/Adds.antt =====
-- `insert_batch` and `insert_prepared` add whole messages, in order, or nothing.
use mathlib.Core.List.{append_assoc, append-nil}
use rustmail.Prelude.Text.{Text, same}
use rustmail.Prelude.{
  ℕ, suc, ◌≡◌, refl, ap, ◌∙◌, Bool, false, List, [], ◌∷◌, ◌++◌, length, any, inl, inr, Bool-cases,
  ◌==◌,
}
use rustmail.Storage.Schema.{
  PreparedAttachment, PreparedMessage, MessageSummary, AttachmentRow, Db, next_seq,
}
use rustmail.Storage.Exec.{Result, World, Conn, Exec, ◌>>=◌, ◌>>◌, statement}
use rustmail.Storage.Exec.Holds.{Post, Post-map, bind-Holds, statement-Holds}
use rustmail.Storage.Insert.{
  unless_taken, summary_of, attachment_row, insert_attachment_row, insert_message_row,
  insert_content_row, insert_attachments, insert_rows_in, Stored,
}
use rustmail.Storage.Insert.Items.{Item, item_summary, attachment_rows, add_rows, Fits}

module _ {ℓ κ} {A : Type ℓ} {B : Type κ} (w : World) (Q : B → Conn → Type 0) where
  -- A row that a constraint may refuse, and what comes behind it.
  pub then-Post :
      (f : Db → Result A × Db) (taken : Db → Bool) (a : Db → A) (after : Db → Db) (k : A → Exec B)
      (c : Conn)
      → f c.db ≡ unless_taken (taken c.db) (a c.db) c.db (after c.db)
      → (taken c.db ≡ false
          → Post Q (k (a c.db) (record { db = after c.db; moment = suc c.moment })))
      → Post Q ((statement w f >>= k) c)
  then-Post f taken a after k c e h =
      bind-Holds Q (λ e c. Unit) (statement w f) k c
        (statement-Holds w (λ a c'. Post Q (k a c')) (λ e c. Unit) f c (λ code. tt)
          (elim (Bool-cases (taken c.db)) [
            | inl is_taken ↦ rw (e, is_taken) tt
            | inr free ↦ rw (e, free) (h free)
          ]))

-- The rows that a run of attachments adds to a table.
record Attached (seq : ℕ) (files : List PreparedAttachment) (d d' : Db) : Type 0 where
  ids : List Text
  one_each : length ids ≡ length files
  result : d' ≡ record d { attachments = d.attachments ++ attachment_rows ids seq files }

Attached-cons :
    (seq : ℕ) (id : Text) (a : PreparedAttachment) (files : List PreparedAttachment) (d d' : Db)
    → Attached seq files
        (record d { attachments = d.attachments ++ attachment_row id seq a ∷ [] })
        d'
    → Attached seq (a ∷ files) d d'
Attached-cons seq id a files d d' h = record {
  ids = id ∷ h.ids;
  one_each = ap suc h.one_each;
  result =
      h.result
      ∙ ap (λ (t : List AttachmentRow). record d { attachments = t })
          (append_assoc d.attachments (attachment_row id seq a ∷ []) _);
}

module _ (w : World) where
  insert_attachments-Post :
      (seq : ℕ) (files : List PreparedAttachment) (c : Conn)
      → Post (λ u c'. Attached seq files c.db c'.db) (insert_attachments w seq files c)
  unfolding insert_attachments ◌>>◌ insert_attachment_row
  insert_attachments-Post seq [] c = record {
    ids = [];
    one_each = refl;
    result = rw append-nil refl;
  }
  insert_attachments-Post seq (a ∷ files) c =
      let row = attachment_row (w.ulid c.moment) seq a in
      let add_row = λ (d : Db). record d { attachments = d.attachments ++ row ∷ [] } in
      then-Post w (λ u c'. Attached seq (a ∷ files) c.db c'.db) (insert_attachment_row row)
        (λ d. any (λ b. same b.id row.id) d.attachments) (λ d. tt) add_row
        (λ u. insert_attachments w seq files) c refl
        (λ free.
          Post-map _ _ _ (λ u c'. Attached-cons seq (w.ulid c.moment) a files c.db c'.db)
            (insert_attachments-Post seq files
              (record { db = add_row c.db; moment = suc c.moment })))

-- The rows of one message.
pub record RowsIn (m : PreparedMessage) (d : Db) (s : Stored) (d' : Db) : Type 0 where
  pub item : Item
  pub source : item.message ≡ m
  pub answer : s ≡ (next_seq d.messages, item_summary item)
  pub fits : Fits item d
  pub result : d' ≡ add_rows item d

abbrev message_added : MessageSummary → Db → Db
message_added s d = record d {
  messages = d.messages ++ record { seq = next_seq d.messages; summary = s } ∷ [];
}

abbrev content_added : ℕ → Text → Db → Db
content_added n raw d = record d { contents = d.contents ++ record { seq = n; raw = raw } ∷ [] }

rows_in :
    (m : PreparedMessage) (d d' : Db) (id now : Text)
    → any (λ r. same r.summary.id id) d.messages ≡ false
    → Attached
        (next_seq d.messages)
        m.attachments
        (content_added
          (next_seq d.messages)
          m.compressed_raw
          (message_added (summary_of id now m) d))
        d'
    → RowsIn m d (next_seq d.messages, summary_of id now m) d'
rows_in m d d' id now free h = record {
  item = record { id = id; now = now; message = m; attachment_ids = h.ids };
  source = refl;
  answer = refl;
  fits = record { is_new = free; one_each = h.one_each };
  result = h.result;
}

module _ (w : World) where
  pub insert_rows_in-Post :
      (m : PreparedMessage) (c : Conn) → Post (λ s c'. RowsIn m c.db s c'.db) (insert_rows_in w m c)
  unfolding insert_rows_in ◌>>◌ insert_message_row insert_content_row
  insert_rows_in-Post m c =
      let s = summary_of (w.ulid c.moment) (w.now c.moment) m in
      let n = next_seq c.db.messages in
      let d1 = message_added s c.db in
      let d2 = content_added n m.compressed_raw d1 in
      then-Post w (λ s c'. RowsIn m c.db s c'.db) (insert_message_row s)
        (λ d. any (λ r. same r.summary.id s.id) d.messages) (λ d. next_seq d.messages)
        (message_added s) _ c refl
        (λ free.
          then-Post w (λ s c'. RowsIn m c.db s c'.db) (insert_content_row n m.compressed_raw)
            (λ d. any (λ r. r.seq == n) d.contents) (λ d. tt) (content_added n m.compressed_raw) _
            (record { db = d1; moment = suc c.moment }) refl
            (λ also_free.
              bind-Holds (λ s c'. RowsIn m c.db s c'.db) (λ e c. Unit)
                (insert_attachments w n m.attachments) _
                (record { db = d2; moment = suc (suc c.moment) })
                (Post-map _ _ _
                  (λ u c'. rows_in m c.db c'.db (w.ulid c.moment) (w.now c.moment) free)
                  (insert_attachments-Post w n m.attachments
                    (record { db = d2; moment = suc (suc c.moment) })))))
