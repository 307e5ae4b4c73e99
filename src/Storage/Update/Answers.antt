-- ===== src/Storage/Update/Answers.antt =====
-- What `update_message` leaves behind, and why it fails.
use rustmail.Prelude.Text.{Text}
use rustmail.Prelude.{ℕ, ◌≡◌, ◌⊎◌, Bool, true, false, Option, List, map, length, any, keep}
use rustmail.Storage.Schema.{Db}
use rustmail.Storage.Error.{StorageError, database, not_found, SqlxError}
use rustmail.Storage.Exec.{World}
use rustmail.Storage.Exec.Holds.{Holds}
use rustmail.Storage.Delete.{has_id}
use rustmail.Storage.Update.{Changes, set_where, updated, changes}
use rustmail.Storage.WellFormed.{WellFormed}

-- The named message has the fields that were given, every other message and all that belongs to
-- the messages is as it was.
pub record Updated (json_each : Text → List Text) (id : Text) (u : Changes) (d d' : Db)
    : Type 0 where
  pub was_stored : any (has_id id) d.messages ≡ true
  pub well_formed : WellFormed d'
  pub messages : d'.messages ≡ map (set_where (has_id id) u) d.messages
  pub contents : d'.contents ≡ d.contents
  pub attachments : d'.attachments ≡ d.attachments
  pub index : d'.index ≡ d.index

abbrev pub NotUpdated : Text → Db → StorageError → Type 0
NotUpdated id d e =
    ((e ≡ not_found id) × (any (has_id id) d.messages ≡ false))
    ⊎ ((x : SqlxError) × (e ≡ database x))

module _ (w : World) (json_each : Text → List Text) (to_json : List Text → Text) where
  module _ (id : Text) (is_read is_starred : Option Bool) (tags : Option (List Text)) where
    abbrev pub asked : Changes
    asked = changes json_each w to_json is_read is_starred tags

    abbrev FromSqlite : StorageError → Type 0
    FromSqlite e = (x : SqlxError) × (e ≡ database x)

    -- What the statement does, and how many rows it affects.
    abbrev Counts : Db → ℕ → Db → Type 0
    Counts d n d' =
        (n ≡ length (keep (has_id id) d.messages)) × (d' ≡ updated json_each (has_id id) asked d)
