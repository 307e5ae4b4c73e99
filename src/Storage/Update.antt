-- ===== src/Storage/Update.antt =====
-- `update_message` of crates/rustmail-storage/src/repo.rs, with the trigger of schema.rs that keeps
-- `message_tags` in step.
pub mod Keeps
pub mod Answers
use mathlib.Core.Option
use rustmail.Prelude.Text.{Text, same}
use rustmail.Prelude.{
  ℕ, Bool, true, false, ◌&&◌, ◌==◌, Option, none, some, List, [], ◌∷◌, ◌++◌, map, length, any, keep,
  without, if◌then◌else◌,
}
use rustmail.Storage.Schema.{MessageSummary, MessageRow, TagRow, Db}
use rustmail.Storage.Error.{not_found}
use rustmail.Storage.Exec.{Result, ok, World, Exec, pure, raise, ◌>>=◌, statement, retry_on_lock}
use rustmail.Storage.Delete.{has_id}

-- `COALESCE(new, old)`
abbrev pub coalesce {ℓ} : {A : Type ℓ} → Option A → A → A
coalesce none old = old
coalesce (some new) old = new

pub record Changes : Type 0 where
  pub is_read : Option Bool
  pub is_starred : Option Bool
  pub tags : Option Text

abbrev pub set_fields : Changes → MessageSummary → MessageSummary
set_fields u s = record s {
  is_read = coalesce u.is_read s.is_read;
  is_starred = coalesce u.is_starred s.is_starred;
  tags = coalesce u.tags s.tags;
}

abbrev pub set_row : Changes → MessageRow → MessageRow
set_row u m = record m { summary = set_fields u m.summary }

abbrev pub set_where : (MessageRow → Bool) → Changes → MessageRow → MessageRow
set_where p u m = if p m then set_row u m else m

-- `INSERT OR IGNORE` of one tag, and of several.
abbrev pub add_tag : ℕ → Text → List TagRow → List TagRow
add_tag n tag rows =
    if any (λ (r : TagRow). same r.tag tag && r.message_seq == n) rows
    then rows
    else rows ++ record { tag = tag; message_seq = n } ∷ []

abbrev pub add_tags : ℕ → List Text → List TagRow → List TagRow
add_tags n [] rows = rows
add_tags n (tag ∷ tags) rows = add_tags n tags (add_tag n tag rows)

-- `json_each` is SQLite's reading of the array, and `to_json` what serde_json writes.
module _ (json_each : Text → List Text) where
  -- The trigger, for one updated row.
  unfoldable pub retag : Text → MessageRow → List TagRow → List TagRow
  retag new m rows =
      if same new m.summary.tags
      then rows
      else add_tags m.seq (json_each new) (without (λ (r : TagRow). r.message_seq == m.seq) rows)

  unfoldable pub retag_all : Changes → List MessageRow → List TagRow → List TagRow
  unfolding retag
  retag_all u [] rows = rows
  retag_all u (m ∷ ms) rows = retag_all u ms (retag (coalesce u.tags m.summary.tags) m rows)

  unfoldable pub updated : (MessageRow → Bool) → Changes → Db → Db
  unfolding retag_all
  updated p u d = record d {
    messages = map (set_where p u) d.messages;
    tags = retag_all u (keep p d.messages) d.tags;
  }

  module _ (w : World) (to_json : List Text → Text) where
    abbrev pub changes : Option Bool → Option Bool → Option (List Text) → Changes
    changes is_read is_starred tags = record {
      is_read = is_read;
      is_starred = is_starred;
      tags = Option.map to_json tags;
    }

    abbrev pub unless_none : Text → ℕ → Exec {0} Unit
    unless_none id rows_affected = if rows_affected == 0 then raise (not_found id) else pure tt

    -- The `UPDATE`, with the number of rows it affects.
    abbrev pub update_rows : Text → Changes → Exec ℕ
    update_rows id u =
        statement w (λ d. (ok (length (keep (has_id id) d.messages)), updated (has_id id) u d))

    unfoldable pub update_message :
        Text → Option Bool → Option Bool → Option (List Text) → Exec {0} Unit
    unfolding statement retry_on_lock ◌>>=◌ updated
    update_message id is_read is_starred tags =
        retry_on_lock w (update_rows id (changes is_read is_starred tags)) >>= unless_none id
