-- ===== src/Server/Tests.antt =====
-- A store on lists, and the instances of the theorems on batches.
use mathlib.Core.List.{Perm, flatten}
use rustmail.Prelude.{
  String, ◌==◌, ◌≡◌, false, none, some, List, [], ◌∷◌, ◌++◌, All, Option, is_empty, if◌then◌else◌,
}
use rustmail.Prelude.{ℕ, pos, refl}
use rustmail.Prelude.Text.{Text, codes}
use rustmail.Storage.Tests.{quiet, two, two-WellFormed, earlier}
use rustmail.Api.Changes.{message_delete}
use rustmail.Server.Retention.{run_retention_tick}
use rustmail.Server.Retention.Accounts.{Accounts, run_retention_tick-Accounts}
use rustmail.Smtp.Session.{ReceivedMessage}
use rustmail.Server.Transactions.{
  Delivery, transactions, Bounded, flatten-transactions, transactions-Bounded,
}
use rustmail.Server.Batch.{inserted, failed, Store, World}
use rustmail.Server.Batch.Ledger.{dealt, accepted, announcements}
use rustmail.Server.Batch.Outcome.{
  outcome, persisted-store_and_announce, dealt-store_and_announce, announcements-store_and_announce,
}

abbrev parsed : ReceivedMessage → Option ReceivedMessage
parsed m = if is_empty m.raw then none else some m

-- A batch always fails, and then each of its messages goes in by itself.
abbrev one_at_a_time : Store
one_at_a_time = record {
  State = List ReceivedMessage;
  Prepared = ReceivedMessage;
  Summary = ReceivedMessage;
  prepare = parsed;
  insert_batch = λ s ms. (failed false, s);
  insert_prepared = λ s m. (inserted m, s ++ m ∷ []);
  rows = λ s. s;
  batch_inserted = λ s t ms summaries e. cc;
  batch_failed = λ s t ms wide e. cc;
  one_inserted = λ s t m summary e. cc;
  one_failed = λ s t m wide e. cc;
}

-- The third delivery is abandoned before it is parsed.
abbrev present : World one_at_a_time
present = record { abandoned = λ l d. d.ack == 3; late = λ l. false }

abbrev mail_of : String → ReceivedMessage
mail_of s = record { sender = codes "a"; recipients = []; raw = codes s }

abbrev batch : List Delivery
batch =
    record { message = mail_of "one"; ack = 1 }
    ∷ record { message = mail_of ""; ack = 2 }
    ∷ record { message = mail_of "two"; ack = 3 }
    ∷ []

persisted-store_and_announce_example :
    (outcome one_at_a_time present batch []).0.state
    ≡ [] ++ accepted one_at_a_time (outcome one_at_a_time present batch []).0.log
persisted-store_and_announce_example = persisted-store_and_announce one_at_a_time present batch []

dealt-store_and_announce_example :
    Perm (dealt one_at_a_time present [] (outcome one_at_a_time present batch []).0.log) batch
dealt-store_and_announce_example = dealt-store_and_announce one_at_a_time present batch []

announcements-store_and_announce_example :
    announcements one_at_a_time (outcome one_at_a_time present batch []).0.log
    ≡ (outcome one_at_a_time present batch []).1
announcements-store_and_announce_example =
    announcements-store_and_announce one_at_a_time present batch []

flatten-transactions_example : flatten (transactions batch) ≡ batch
flatten-transactions_example = flatten-transactions batch

transactions-Bounded_example : All Bounded (transactions batch)
transactions-Bounded_example = transactions-Bounded batch

abbrev hours_ago : ℕ → Text
hours_ago n = 5 ∷ []

run_retention_tick-Accounts_example :
    Accounts two.db (run_retention_tick quiet earlier hours_ago 1 (pos 10) two)
run_retention_tick-Accounts_example =
    run_retention_tick-Accounts quiet earlier hours_ago 1 (pos 10) two two-WellFormed

-- The older of two messages is swept.
older_swept :
    (run_retention_tick quiet earlier hours_ago 1 (pos 10) two).events
    ≡ message_delete (4 ∷ []) ∷ []
unfolding run_retention_tick
older_swept = refl
