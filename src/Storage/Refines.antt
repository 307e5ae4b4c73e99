-- ===== src/Storage/Refines.antt =====
-- The repository fills the interface that the message consumer relies on.
use rustmail.Prelude.{◌≡◌, sym, ap, ◌∙◌, Option, List, [], ◌∷◌, ◌++◌, map, Bool}
use rustmail.Smtp.Session.{ReceivedMessage}
use rustmail.Server.Batch.{Inserted, inserted, failed, Store}
use rustmail.Storage.Schema.{PreparedMessage, MessageSummary, MessageRow, Db}
use rustmail.Storage.Error.{is_store_wide}
use rustmail.Storage.Exec.{Result, ok, err, World, Conn}
use rustmail.Storage.Exec.Holds.{Ends, Ends-map}
use rustmail.Storage.Insert.{insert_batch, insert_prepared}
use rustmail.Storage.Insert.Items.{Item, item_summary, item_row, add, add_all, Added}
use rustmail.Storage.Insert.Batch.{insert_batch-Effect, insert_prepared-Effect}
use rustmail.Storage.Insert.Contents.{stored_messages, stored_messages-add_all}
use rustmail.Storage.WellFormed.{WellFormed, Indexed, add_all-WellFormed}
use mathlib.Core.Path.{subst}
use mathlib.Core.List.{append_assoc, append-nil, map-append}
use rustmail.Server.Batch
use rustmail.Server.Transactions.{Delivery}
use rustmail.Server.Batch.Ledger.{accepted}
use rustmail.Server.Batch.Outcome.{outcome, persisted-store_and_announce}

-- A connection whose tables are well formed.
abbrev pub Sound : Type 0
Sound = (c : Conn) × WellFormed c.db

pub Added-WellFormed :
    (d d' : Db) (ms : List PreparedMessage) (ss : List MessageSummary)
    → Added d ms ss d'
    → WellFormed d
    → WellFormed d'
Added-WellFormed d d' ms ss h wf =
    subst WellFormed (sym h.result) (add_all-WellFormed h.items d h.fit wf)

pub Added-stored_messages :
    (d d' : Db) (ms : List PreparedMessage) (ss : List MessageSummary)
    → Added d ms ss d'
    → WellFormed d
    → stored_messages d' ≡ stored_messages d ++ ms
Added-stored_messages d d' ms ss h wf =
    ap stored_messages h.result
    ∙ stored_messages-add_all h.items d h.fit wf
    ∙ ap (λ (ms : List PreparedMessage). stored_messages d ++ ms) h.sources

-- `answers` are the summaries that an answer stands for.
module _ {A : Type 0} (ms : List PreparedMessage) (answers : A → List MessageSummary) where
  abbrev Adds : Db → A → Db → Type 0
  Adds d a d' = Added d ms (answers a) d'

  abbrev settle : (s : Sound) (r : Result A × Conn) → Ends Adds s.0.db r → Inserted A × Sound
  settle (c, wf) (ok a, c') h = (inserted a, (c', Added-WellFormed c.db c'.db ms (answers a) h wf))
  settle (c, wf) (err e, c') h = (failed (is_store_wide e), (c', subst WellFormed (sym h) wf))

  pub settle-inserted :
      (s t : Sound) (r : Result A × Conn) (h : Ends Adds s.0.db r) (a : A)
      → settle s r h ≡ (inserted a, t)
      → stored_messages t.0.db ≡ stored_messages s.0.db ++ ms
  settle-inserted (c, wf) t (ok a, c') h b e =
      ap (λ (p : Inserted A × Sound). stored_messages p.1.0.db) (sym e)
      ∙ Added-stored_messages c.db c'.db ms (answers a) h wf
  settle-inserted (c, wf) t (err x, c') h b e = cc

  pub settle-failed :
      (s t : Sound) (r : Result A × Conn) (h : Ends Adds s.0.db r) (wide : Bool)
      → settle s r h ≡ (failed wide, t)
      → stored_messages t.0.db ≡ stored_messages s.0.db
  settle-failed (c, wf) t (ok a, c') h b e = cc
  settle-failed (c, wf) t (err x, c') h b e =
      ap (λ (p : Inserted A × Sound). stored_messages p.1.0.db) (sym e) ∙ ap stored_messages h

-- `parse` is `PreparedMessage::parse`, which a MIME parser and a compressor stand behind.
module _ (w : World) (parse : ReceivedMessage → Option PreparedMessage) where
  unfoldable pub repository : Store
  unfolding insert_batch insert_prepared
  repository = record {
    State = Sound;
    Prepared = PreparedMessage;
    Summary = MessageSummary;
    prepare = parse;
    insert_batch =
        λ s ms. settle ms (λ ss. ss) s (insert_batch w ms s.0) (insert_batch-Effect w ms s.0);
    insert_prepared = λ s m.
        settle (m ∷ []) (λ a. a ∷ []) s (insert_prepared w m s.0) (insert_prepared-Effect w m s.0);
    rows = λ s. stored_messages s.0.db;
    batch_inserted = λ s t ms. settle-inserted ms (λ ss. ss) s t _ (insert_batch-Effect w ms s.0);
    batch_failed = λ s t ms. settle-failed ms (λ ss. ss) s t _ (insert_batch-Effect w ms s.0);
    one_inserted =
        λ s t m. settle-inserted (m ∷ []) (λ a. a ∷ []) s t _ (insert_prepared-Effect w m s.0);
    one_failed =
        λ s t m. settle-failed (m ∷ []) (λ a. a ∷ []) s t _ (insert_prepared-Effect w m s.0);
  }

abbrev pub summaries : Db → List MessageSummary
summaries d = map (λ (m : MessageRow). m.summary) d.messages

summaries-add_all :
    (items : List Item) (d : Db)
    → summaries (add_all items d) ≡ summaries d ++ map item_summary items
summaries-add_all [] d = sym (append-nil _)
summaries-add_all (i ∷ items) d =
    summaries-add_all items (add i d)
    ∙ ap (λ (ss : List MessageSummary). ss ++ map item_summary items)
        (map-append (λ (m : MessageRow). m.summary) d.messages (item_row i d ∷ []))
    ∙ append_assoc (summaries d) (item_summary i ∷ []) (map item_summary items)

-- A batch as it is stored: behind what there was, whole and in order, and listed as it was answered.
pub record Stores (ms : List PreparedMessage) (d : Db) (ss : List MessageSummary) (d' : Db)
    : Type 0 where
  pub well_formed : WellFormed d'
  pub contents : stored_messages d' ≡ stored_messages d ++ ms
  pub listed : summaries d' ≡ summaries d ++ ss

-- `insert_batch` on well-formed tables either stores the whole batch, in order, with the summaries
-- it returns behind those that were listed, and leaves the tables well formed; or it fails, and the
-- tables are as they were.
pub insert_batch-Stores :
    (w : World) (ms : List PreparedMessage) (c : Conn)
    → WellFormed c.db
    → Ends (Stores ms) c.db (insert_batch w ms c)
insert_batch-Stores w ms c wf =
    Ends-map (λ d ss d'. Added d ms ss d') (Stores ms) c.db (insert_batch w ms c)
      (λ ss d' h. record {
        well_formed = Added-WellFormed c.db d' ms ss h wf;
        contents = Added-stored_messages c.db d' ms ss h wf;
        listed =
            ap summaries h.result
            ∙ summaries-add_all h.items c.db
            ∙ ap (λ (ss : List MessageSummary). summaries c.db ++ ss) (sym h.answers);
      })
      (insert_batch-Effect w ms c)

module _ (w : World) (parse : ReceivedMessage → Option PreparedMessage) where
  -- The tables behind the interface.
  unfoldable pub tables : (repository w parse).State → Db
  unfolding repository
  tables s = s.0.db

  unfoldable pub accepted_messages : List (Batch.Event (repository w parse)) → List PreparedMessage
  unfolding repository
  accepted_messages log = accepted (repository w parse) log

  -- After a batch, the tables hold what they held before, and behind it, in the order of the
  -- answers, the messages of exactly the deliveries that were answered `Stored`, each with its
  -- source, its attachments and the text that is indexed of it; and the index has one row for each
  -- message in the tables, in their order, with its subject, sender and recipients.
  pub persisted-repository :
      (world : Batch.World (repository w parse)) (ds : List Delivery)
      (s : (repository w parse).State)
      → (stored_messages (tables (outcome (repository w parse) world ds s).0.state)
          ≡ stored_messages (tables s)
            ++ accepted_messages (outcome (repository w parse) world ds s).0.log)
        × Indexed (tables (outcome (repository w parse) world ds s).0.state)
  unfolding repository tables accepted_messages
  persisted-repository world ds s = (
    persisted-store_and_announce (repository w parse) world ds s,
    (outcome (repository w parse) world ds s).0.state.1.entries,
  )
