-- ===== src/Api/Changes.antt =====
-- The handlers of crates/rustmail-api/src/handlers.rs that change messages, with the events that
-- they broadcast, and the names and tags that they let through.
pub mod Broadcasts
use rustmail.Prelude.Text.{Text, utf8_len}
use rustmail.Prelude.{
  ℕ, Bool, true, false, ◌&&◌, ◌||◌, ◌==◌, Option, none, some, List, [], ◌∷◌, ◌++◌, map, length,
  is_empty, any, leb, ltb, if◌then◌else◌,
}
use rustmail.Storage.Error.{StorageError}
use rustmail.Storage.Exec.{Result, ok, err, World, Conn}
use rustmail.Storage.Delete.{delete, delete_all}
use rustmail.Storage.Update.{update_message}
use rustmail.Api.Messages.{
  AppError, bad_request, storage, too_many_tags, tag_too_long, tag_malformed, BadRequest, max_tags,
  max_tag_len, Answer, answered, refused,
}

-- The events of crates/rustmail-api/src/state.rs that these handlers send.
pub data WsEvent : Type 0 where
  message_delete : (id : Text) → WsEvent
  message_read message_starred : (id : Text) (set : Bool) → WsEvent
  message_tags : (id : Text) (tags : List Text) → WsEvent
  messages_clear : WsEvent

-- `char::is_control`: the code points of Unicode's category Cc.
unfoldable pub is_control : ℕ → Bool
is_control c = ltb c 32 || (leb 127 c && leb c 159)

-- The first reason against a tag, if there is one.
unfoldable pub check_tags : List Text → Option BadRequest
unfolding is_control utf8_len
check_tags [] = none
check_tags (tag ∷ tags) =
    let rest = check_tags tags in
    if ltb max_tag_len (utf8_len tag)
    then some tag_too_long
    else if is_empty tag || any is_control tag
    then some tag_malformed
    else rest

-- The reason to refuse, if there is one.
unfoldable pub validate_tags : List Text → Option BadRequest
unfolding check_tags
validate_tags tags = if ltb max_tags (length tags) then some too_many_tags else check_tags tags

pub record UpdateBody : Type 0 where
  pub is_read : Option Bool
  pub is_starred : Option Bool
  pub tags : Option (List Text)

abbrev pub validated : Option (List Text) → Option BadRequest
validated none = none
validated (some tags) = validate_tags tags

abbrev when_some {ℓ} : {A : Type ℓ} → Option A → (A → WsEvent) → List WsEvent
when_some none f = []
when_some (some a) f = f a ∷ []

abbrev pub update_events : Text → UpdateBody → List WsEvent
update_events id b =
    when_some b.is_read (message_read id)
    ++ (when_some b.is_starred (message_starred id) ++ when_some b.tags (message_tags id))

-- What a handler answers, what it broadcasts, and the database behind it.
pub record Served {ℓ} (A : Type ℓ) : Type ℓ where
  pub answer : Answer A
  pub events : List WsEvent
  pub conn : Conn

abbrev pub broadcast {ℓ} : {A : Type ℓ} → List WsEvent → Result A × Conn → Served A
broadcast es (ok a, c) = record { answer = answered a; events = es; conn = c }
broadcast es (err e, c) = record { answer = refused (storage e); events = []; conn = c }

module _ (w : World) where
  unfoldable pub delete_message : Text → Conn → Served {0} Unit
  unfolding delete
  delete_message id c = broadcast (message_delete id ∷ []) (delete w id c)

  -- The space that is given back afterwards holds no rows.
  unfoldable pub delete_all_messages : Conn → Served ℕ
  unfolding delete_all
  delete_all_messages c = broadcast (messages_clear ∷ []) (delete_all w c)

  module _ (json_each : Text → List Text) (to_json : List Text → Text) where
    abbrev pub unless_refused : Option BadRequest → Text → UpdateBody → Conn → Served {0} Unit
    unless_refused (some why) id b c = record {
      answer = refused (bad_request why);
      events = [];
      conn = c;
    }
    unless_refused none id b c =
        broadcast (update_events id b)
          (update_message json_each w to_json id b.is_read b.is_starred b.tags c)

    unfoldable pub update_message_handler : Text → UpdateBody → Conn → Served {0} Unit
    unfolding update_message validate_tags
    update_message_handler id b c = unless_refused (validated b.tags) id b c

-- `char::is_ascii_alphanumeric`, or one of `.`, `_` and `-`.
unfoldable pub is_safe_char : ℕ → Bool
is_safe_char c =
    (leb b'A' c && leb c b'Z')
    || (leb b'a' c && leb c b'z')
    || (leb b'0' c && leb c b'9')
    || c == b'.'
    || c == b'_'
    || c == b'-'

unfoldable pub sanitize_filename : Text → Text
unfolding is_safe_char
sanitize_filename = map (λ c. if is_safe_char c then c else b'_')
