-- ===== src/Tui/WellFormed.antt =====
-- What holds of an `App` between two events: its lists, its flags and its pending requests agree.
pub mod Steps
pub mod Previews
pub mod Updates
pub mod Moves
pub mod Inputs
pub mod Runs
use rustmail.Prelude.{
  ℕ, ◌-◌, ◌≤◌, ◌<◌, ◌%◌, ◌≡◌, refl, Bool, true, false, Option, none, some, length, if◌then◌else◌,
}
use rustmail.Prelude.Text.{Text, codes}
use rustmail.Tui.Types.{
  Message, PendingDeltas, no_deltas, pending_delta_capacity, Mode, raw_view, confirm,
}
use rustmail.Tui.App.{App, Scrollbar}

abbrev pub is_some {ℓ} : {A : Type ℓ} → Option A → Bool
is_some none = false
is_some (some a) = true

abbrev pub is_raw_view : Mode → Bool
is_raw_view raw_view = true
is_raw_view _ = false

abbrev pub is_confirm : Mode → Bool
is_confirm confirm = true
is_confirm _ = false

-- The fields that the flags of the program are spread over.
pub record Core : Type 0 where
  pub page_size : ℕ
  pub offset : ℕ
  pub loading : Bool
  pub pending_deltas : PendingDeltas
  pub preview_loading : Bool
  pub pending_preview : Option ℕ
  pub preview : Option Message
  pub last_preview_id : Option Text
  pub mode : Mode
  pub raw_content : Option Text
  pub confirm_action : Option Text
  pub error_ticks : ℕ
  pub spinner_frame : ℕ

abbrev pub core : App → Core
core a = record {
  page_size = a.page_size;
  offset = a.offset;
  loading = a.loading;
  pending_deltas = a.pending_deltas;
  preview_loading = a.preview_loading;
  pending_preview = a.pending_preview;
  preview = a.preview;
  last_preview_id = a.last_preview_id;
  mode = a.mode;
  raw_content = a.raw_content;
  confirm_action = a.confirm_action;
  error_ticks = a.error_ticks;
  spinner_frame = a.spinner_frame;
}

-- A page starts at a multiple of its size; deltas are remembered, at most 256, only while a list is
-- fetched; a preview that is awaited is shown as loading, and one that is shown has its message's
-- identifier; the source is there exactly while it is viewed; a question is asked only about an
-- action; and an error and the spinner have not run over.
pub record Consistent (c : Core) : Type 0 where
  pub paged : (c.page_size ≡ 50) × (c.offset % 50 ≡ 0)
  pub capped : length c.pending_deltas.events ≤ pending_delta_capacity
  pub idle : c.loading ≡ false → c.pending_deltas ≡ no_deltas
  pub awaited : c.preview_loading ≡ false → c.pending_preview ≡ none
  pub shown : is_some c.last_preview_id ≡ is_some c.preview
  pub viewed : is_some c.raw_content ≡ is_raw_view c.mode
  pub asked : is_confirm c.mode ≡ true → c.confirm_action ≡ some (codes "delete_all")
  pub ticks : c.error_ticks < 50
  pub frame : c.spinner_frame < 10

pub record Base (a : App) : Type 0 where
  pub base : Consistent (core a)

-- The cursor rests on a row of `n`, or on row 0 of none, and the widgets show it.
pub record Cursor (n selected : ℕ) (list_selected : Option ℕ) (bar : Scrollbar) : Type 0 where
  pub within : selected ≤ n - 1
  pub listed : list_selected ≡ some selected
  pub barred : bar ≡ record { content_length = n; position = selected }

abbrev pub Pointed : App → Type 0
Pointed a = Cursor (length a.messages) a.selected a.list_selected a.list_scrollbar_state

pub record WellFormed (a : App) : Type 0 where
  pub base : Consistent (core a)
  pub pointed : Pointed a

pub if-Keeps :
    (P : App → Type 0) (b : Bool) (x y : App)
    → (b ≡ true → P x)
    → (b ≡ false → P y)
    → P (if b then x else y)
if-Keeps P true x y h k = h refl
if-Keeps P false x y h k = k refl
