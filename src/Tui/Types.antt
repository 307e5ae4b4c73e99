-- ===== src/Tui/Types.antt =====
-- The types of crates/rustmail-tui: api.rs, event.rs, and the enums of app.rs.
-- The counts and sizes that the server sends as `i64` are natural numbers here.
use rustmail.Prelude.{
  ℕ, ◌*◌, ◌^◌, ◌+◌, ◌%◌, Bool, true, false, Option, List, [], ◌++◌, ◌∷◌, length, leb, if◌then◌else◌,
}
use rustmail.Prelude.Text.{Text}

pub record MessageSummary : Type 0 where
  pub id : Text
  pub sender : Text
  pub recipients : List Text
  pub subject : Option Text
  pub size : ℕ
  pub has_attachments : Bool
  pub is_read : Bool
  pub is_starred : Bool
  pub tags : List Text
  pub created_at : Text

pub record Message : Type 0 where
  pub id : Text
  pub sender : Text
  pub recipients : List Text
  pub subject : Option Text
  pub text_body : Option Text
  pub html_body : Option Text
  pub size : ℕ
  pub has_attachments : Bool
  pub is_read : Bool
  pub is_starred : Bool
  pub tags : List Text
  pub created_at : Text

pub record ListResponse : Type 0 where
  pub messages : List MessageSummary
  pub total : ℕ

pub data WsEvent : Type 0 where
  message_new : MessageSummary → WsEvent
  message_delete : Text → WsEvent
  message_read : Text → Bool → WsEvent
  message_starred : Text → Bool → WsEvent
  message_tags : Text → List Text → WsEvent
  messages_clear : WsEvent

-- `RAW_PREVIEW_LIMIT_BYTES`
abbrev pub raw_preview_limit_bytes : ℕ
raw_preview_limit_bytes = 128 * 1024

pub data RawTarget : Type 0 where
  preview full_view : RawTarget

-- `Result<_, String>`
pub data Fetched {ℓ} (A : Type ℓ) : Type ℓ where
  got : A → Fetched A
  failed : Text → Fetched A

-- `KeyCode` and `KeyEvent` of the terminal library, as far as the keys matter.
pub data KeyCode : Type 0 where
  char : ℕ → KeyCode
  up down left right enter tab back_tab esc backspace other : KeyCode

pub record KeyEvent : Type 0 where
  pub code : KeyCode
  pub control : Bool

pub data MouseEventKind : Type 0 where
  left_down scroll_down scroll_up other : MouseEventKind

pub record MouseEvent : Type 0 where
  pub kind : MouseEventKind
  pub column : ℕ
  pub row : ℕ

pub data Event : Type 0 where
  key : KeyEvent → Event
  mouse : MouseEvent → Event
  resize tick ws_overflow : Event
  ws_message : Text → Event
  ws_status : Bool → Event
  messages_fetched : ℕ → Fetched ListResponse → Event
  preview_loaded : ℕ → Text → Bool → Fetched Message → Event
  raw_loaded : RawTarget → ℕ → Text → ℕ → Fetched Text → Event
  patched : Text → Option Bool → Option Bool → Fetched (Unit {0}) → Event
  deleted : Text → Fetched (Unit {0}) → Event
  all_deleted : Fetched (Unit {0}) → Event

pub data Mode : Type 0 where
  normal search raw_view confirm help : Mode

pub data Focus : Type 0 where
  list preview : Focus

pub data PreviewTab : Type 0 where
  text headers raw : PreviewTab

-- `PENDING_DELTA_CAPACITY`
abbrev pub pending_delta_capacity : ℕ
pending_delta_capacity = 256

pub record PendingDeltas : Type 0 where
  pub events : List WsEvent
  pub overflowed : Bool

abbrev pub no_deltas : PendingDeltas
no_deltas = record { events = []; overflowed = false }

unfoldable pub record_delta : WsEvent → PendingDeltas → PendingDeltas
record_delta delta p =
    if p.overflowed
    then p
    else if leb pending_delta_capacity (length p.events)
    then record { events = []; overflowed = true }
    else record p { events = p.events ++ delta ∷ [] }

-- `x += 1` on a `u64`
abbrev pub next_u64 : ℕ → ℕ
next_u64 n = (n + 1) % 2 ^ 64
