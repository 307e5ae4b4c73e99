-- ===== src/Api/Responses.antt =====
-- What crates/rustmail-api/src/handlers.rs answers: `AppError::into_response`, and the responses of the
-- handlers that change one message.
pub mod Says
use rustmail.Prelude.{ℕ, List}
use rustmail.Storage.Error.{
  StorageError, database, not_found, attachment_corrupt, content_corrupt, compress,
}
use rustmail.Api.Messages.{
  AppError, bad_request, unknown_cursor, timed_out, storage, BadRequest, Answer, answered, refused,
}
use rustmail.Api.Changes.{Served}

-- The texts of the responses. An unknown cursor has a code of its own beside its text.
pub data Message : Type 0 where
  empty unknown_cursor_code read_timed_out resource_not_found internal_server_error : Message
  reason : BadRequest → Message

pub record Response : Type 0 where
  pub status : ℕ
  pub message : Message

abbrev pub respond_to_storage : StorageError → Response
respond_to_storage (not_found id) = record { status = 404; message = resource_not_found }
respond_to_storage (database e) = record { status = 500; message = internal_server_error }
respond_to_storage (attachment_corrupt m a t e s) = record {
  status = 500;
  message = internal_server_error;
}
respond_to_storage (content_corrupt m why) = record {
  status = 500;
  message = internal_server_error;
}
respond_to_storage compress = record { status = 500; message = internal_server_error }

unfoldable pub into_response : AppError → Response
into_response unknown_cursor = record { status = 400; message = unknown_cursor_code }
into_response (bad_request why) = record { status = 400; message = reason why }
into_response timed_out = record { status = 503; message = read_timed_out }
into_response (storage e) = respond_to_storage e

-- A change that was made is answered with `NO_CONTENT`.
abbrev pub change_response : Answer {0} Unit → Response
change_response (answered x) = record { status = 204; message = empty }
change_response (refused e) = into_response e
