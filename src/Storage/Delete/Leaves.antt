-- ===== src/Storage/Delete/Leaves.antt =====
-- What the retention deletions leave of the messages.
use mathlib.Core.Path.{subst}
use rustmail.Prelude.Text.{Text}
use rustmail.Prelude.{
  ◌≡◌, ◌-◌, sym, ap, ◌∙◌, Bool, List, map, length, take, drop, keep, without, ℤ, from_zero,
}
use rustmail.Storage.Schema.{MessageRow, Db}
use rustmail.Storage.Exec.{World, Conn}
use rustmail.Storage.Exec.Holds.{Ends, Ends-map}
use rustmail.Storage.Insert.Contents.{message_at, stored_messages}
use rustmail.Storage.WellFormed.{WellFormed}
use rustmail.Storage.Delete.{ids_of, is_older, delete_older_than, trim_to_max}
use rustmail.Storage.Delete.Purge.{purge-WellFormed, stored_messages-purge}
use rustmail.Storage.Delete.Effects.{Purged, delete_older_than-Effect}
use rustmail.Storage.Delete.Trim.{Trimmed, trim_to_max-Effect}

-- `goes` were deleted and are the answer; `stays` keep all that they were stored with.
pub record Leaves (goes stays : List MessageRow) (d : Db) (ids : List Text) (d' : Db) : Type 0 where
  pub well_formed : WellFormed d'
  pub answer : ids ≡ ids_of goes
  pub messages : d'.messages ≡ stays
  pub contents : stored_messages d' ≡ map (message_at d) stays

Purged-Leaves :
    (p : MessageRow → Bool) (d d' : Db) (ids : List Text)
    → WellFormed d
    → Purged p d ids d'
    → Leaves (keep p d.messages) (without p d.messages) d ids d'
Purged-Leaves p d d' ids wf h = record {
  well_formed = subst WellFormed (sym h.result) (purge-WellFormed p d wf);
  answer = h.answer;
  messages = ap (λ (d : Db). d.messages) h.result;
  contents = ap stored_messages h.result ∙ stored_messages-purge p d wf;
}

abbrev pub oldest : ℤ → Db → List MessageRow
oldest most d = take (length d.messages - from_zero most) d.messages

abbrev pub newest : ℤ → Db → List MessageRow
newest most d = drop (length d.messages - from_zero most) d.messages

Trimmed-Leaves :
    (most : ℤ) (d d' : Db) (ids : List Text)
    → WellFormed d
    → Trimmed most d ids d'
    → Leaves (oldest most d) (newest most d) d ids d'
Trimmed-Leaves most d d' ids wf h =
    subst (λ gone. Leaves gone (newest most d) d ids d') h.goes
      (subst (λ stays. Leaves (keep h.oldest d.messages) stays d ids d') h.stays
        (Purged-Leaves h.oldest d d' ids wf h.purged))

-- `trim_to_max` deletes all but the newest `most` messages and returns the identifiers of the
-- deleted ones; what is left keeps its content, attachments and index rows, in well-formed tables.
-- If it fails, the tables are as they were.
pub trim_to_max-Leaves :
    (w : World) (most : ℤ) (c : Conn)
    → WellFormed c.db
    → Ends (λ d ids d'. Leaves (oldest most d) (newest most d) d ids d') c.db (trim_to_max w most c)
trim_to_max-Leaves w most c wf =
    Ends-map (λ d ids d'. WellFormed d → Trimmed most d ids d')
      (λ d ids d'. Leaves (oldest most d) (newest most d) d ids d') c.db (trim_to_max w most c)
      (λ ids d' h. Trimmed-Leaves most c.db d' ids wf (h wf)) (trim_to_max-Effect w most c)

-- `delete_older_than` deletes exactly the messages that are older than the cutoff.
pub delete_older_than-Leaves :
    (w : World) (before : Text → Text → Bool) (cutoff : Text) (c : Conn)
    → WellFormed c.db
    → Ends
        (λ d ids d'.
          Leaves
            (keep (is_older w before cutoff) d.messages)
            (without (is_older w before cutoff) d.messages)
            d
            ids
            d')
        c.db
        (delete_older_than w before cutoff c)
delete_older_than-Leaves w before cutoff c wf =
    Ends-map (λ d ids d'. Purged (is_older w before cutoff) d ids d')
      (λ d ids d'.
        Leaves (keep (is_older w before cutoff) d.messages)
          (without (is_older w before cutoff) d.messages) d ids d')
      c.db (delete_older_than w before cutoff c)
      (λ ids d' h. Purged-Leaves (is_older w before cutoff) c.db d' ids wf h)
      (delete_older_than-Effect w before cutoff c)
