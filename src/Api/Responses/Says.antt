-- ===== src/Api/Responses/Says.antt =====
-- What a client may conclude from the status of a response to a change.
use rustmail.Prelude.Text.{Text}
use rustmail.Prelude.{◌≡◌, ◌≢◌, refl, sym, ap, ◌∙◌, false, List, [], ◌∷◌, any, inl, inr, arith}
use rustmail.Storage.Schema.{Db}
use rustmail.Storage.Error.{
  StorageError, database, not_found, attachment_corrupt, content_corrupt, compress,
}
use rustmail.Storage.Exec.{World, Conn}
use rustmail.Storage.Delete.{has_id}
use rustmail.Storage.Delete.One.{Deleted, Missing}
use rustmail.Storage.Update.Answers.{NotUpdated}
use rustmail.Storage.WellFormed.{WellFormed}
use rustmail.Api.Messages.{
  AppError, bad_request, unknown_cursor, timed_out, storage, Answer, answered, refused,
}
use rustmail.Api.Changes.{WsEvent, message_delete, Served, delete_message}
use rustmail.Api.Changes.Broadcasts.{Told, FromStorage, delete_message-ToldBy}
use rustmail.Api.Responses.{respond_to_storage, into_response, change_response}

-- 204 says that the change was made and told; any other status that nothing was changed or told;
-- 404 that no message has the identifier.
pub record Says (P : Db → Type 0) (es : List WsEvent) (id : Text) (d : Db) (s : Served {0} Unit)
    : Type 0 where
  pub made : (change_response s.answer).status ≡ 204 → (s.events ≡ es) × P s.conn.db
  pub kept : (change_response s.answer).status ≢ 204 → (s.events ≡ []) × (s.conn.db ≡ d)
  pub missing : (change_response s.answer).status ≡ 404 → any (has_id id) d.messages ≡ false

storage-ne-204 : (e : StorageError) → (respond_to_storage e).status ≢ 204
storage-ne-204 (database x) = omega arith
storage-ne-204 (not_found id) = omega arith
storage-ne-204 (attachment_corrupt m a t x y) = omega arith
storage-ne-204 (content_corrupt m why) = omega arith
storage-ne-204 compress = omega arith

into_response-ne-204 : (e : AppError) → (into_response e).status ≢ 204
unfolding into_response
into_response-ne-204 (bad_request why) = omega arith
into_response-ne-204 unknown_cursor = omega arith
into_response-ne-204 timed_out = omega arith
into_response-ne-204 (storage e) = storage-ne-204 e

Told-Says :
    (P : Db → Type 0) (E : AppError → Type 0) (es : List WsEvent) (id : Text) (d : Db)
    → ((e : AppError) → E e → (into_response e).status ≡ 404 → any (has_id id) d.messages ≡ false)
    → (a : Answer {0} Unit) (events : List WsEvent) (c : Conn) → Told P E es d a events c
    → Says P es id d (record { answer = a; events = events; conn = c })
Told-Says P E es id d why (answered x) events c h = record {
  made = λ e. h;
  kept = λ e. absurd (e refl);
  missing = λ e. absurd (omega (arith, e));
}
Told-Says P E es id d why (refused e) events c (quiet, same_db, x) = record {
  made = λ n. absurd (into_response-ne-204 e n);
  kept = λ n. (quiet, same_db);
  missing = why e x;
}

-- The repository answers `NotFound` only for a missing message.
not_found-missing :
    (id : Text) (d : Db) (e : AppError)
    → FromStorage (NotUpdated id d) e
    → (into_response e).status ≡ 404
    → any (has_id id) d.messages ≡ false
unfolding into_response
not_found-missing id d e (x, e_x, inl (n, gone)) s = gone
not_found-missing id d e (x, e_x, inr (y, e_y)) s =
    absurd (omega (arith, sym s ∙ ap (λ e. (into_response e).status) (e_x ∙ ap storage e_y)))

module _ (w : World) where
  -- What the status of `delete_message` on well-formed tables says: 204, that the message was
  -- removed with all that belongs to it and its deletion broadcast; any other status, that nothing
  -- was changed or broadcast; and 404, that no message has the identifier.
  pub delete_message-Says :
      (id : Text) (c : Conn)
      → WellFormed c.db
      → Says (Deleted w id c.db tt) (message_delete id ∷ []) id c.db (delete_message w id c)
  delete_message-Says id c wf =
      let s = delete_message w id c in
      Told-Says (Deleted w id c.db tt) (FromStorage (Missing w id c.db)) (message_delete id ∷ []) id
        c.db (not_found-missing id c.db) s.answer s.events s.conn (delete_message-ToldBy w id c wf)
