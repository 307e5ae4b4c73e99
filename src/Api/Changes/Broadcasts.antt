-- ===== src/Api/Changes/Broadcasts.antt =====
-- An event is broadcast exactly for a change that was made.
use rustmail.Prelude.Text.{Text}
use rustmail.Prelude.{◌≡◌, ◌⊎◌, refl, some, List, [], ◌∷◌}
use rustmail.Storage.Schema.{Db}
use rustmail.Storage.Error.{StorageError}
use rustmail.Storage.Exec.{Result, ok, err, World, Conn}
use rustmail.Storage.Exec.Holds.{Holds}
use rustmail.Storage.Delete.{delete}
use rustmail.Storage.Delete.One.{Deleted, Missing, delete-EndsWith}
use rustmail.Storage.Update.{Changes, changes}
use rustmail.Storage.Update.Answers.{NotUpdated}
use rustmail.Storage.WellFormed.{WellFormed}
use rustmail.Api.Messages.{AppError, bad_request, storage, Answer, answered, refused, BadRequest}
use rustmail.Api.Changes.{
  WsEvent, message_delete, UpdateBody, Served, broadcast, delete_message, validated,
}

-- A request is answered after the change and its events, or refused with nothing changed and
-- nothing broadcast.
abbrev pub Told {ℓ} :
    {A : Type ℓ} (P : Db → Type 0) (E : AppError → Type 0) (es : List WsEvent) (d : Db)
    → Answer A
    → List WsEvent
    → Conn
    → Type 0
Told P E es d (answered a) events c = (events ≡ es) × P c.db
Told P E es d (refused e) events c = (events ≡ []) × (c.db ≡ d) × E e

abbrev pub ToldBy {ℓ} :
    {A : Type ℓ} (P : Db → Type 0) (E : AppError → Type 0) (es : List WsEvent) (d : Db)
    → Served A
    → Type 0
ToldBy P E es d s = Told P E es d s.answer s.events s.conn

-- An error of the repository that the handler passes on.
abbrev pub FromStorage : (StorageError → Type 0) → AppError → Type 0
FromStorage E e = (x : StorageError) × (e ≡ storage x) × E x

broadcast-ToldBy {ℓ} :
    {A : Type ℓ} (P : Db → Type 0) (E : StorageError → Type 0) (es : List WsEvent) (d : Db)
    (r : Result A × Conn)
    → Holds (λ a c. P c.db) (λ e c. (c.db ≡ d) × E e) r
    → ToldBy P (FromStorage E) es d (broadcast es r)
broadcast-ToldBy P E es d (ok a, c) h = (refl, h)
broadcast-ToldBy P E es d (err e, c) (same_db, x) = (refl, same_db, (e, refl, x))

module _ (w : World) where
  -- `delete_message` broadcasts the deletion exactly when it has removed the message with all that
  -- belongs to it. If it refuses, nothing is changed or broadcast, and it says that the message is
  -- not found only if no message has the identifier.
  pub delete_message-ToldBy :
      (id : Text) (c : Conn)
      → WellFormed c.db
      → ToldBy
          (Deleted w id c.db tt)
          (FromStorage (Missing w id c.db))
          (message_delete id ∷ [])
          c.db
          (delete_message w id c)
  unfolding delete_message
  delete_message-ToldBy id c wf =
      broadcast-ToldBy (Deleted w id c.db tt) (Missing w id c.db) (message_delete id ∷ []) c.db
        (delete w id c) (delete-EndsWith w id c wf)

  module _ (json_each : Text → List Text) (to_json : List Text → Text) where
    -- Why an update was refused: its tags, or the repository.
    abbrev pub Refused : Text → UpdateBody → Db → AppError → Type 0
    Refused id b d e =
        ((why : BadRequest) × (e ≡ bad_request why) × (validated b.tags ≡ some why))
        ⊎ FromStorage (NotUpdated id d) e

    abbrev pub changed : UpdateBody → Changes
    changed b = changes json_each w to_json b.is_read b.is_starred b.tags
