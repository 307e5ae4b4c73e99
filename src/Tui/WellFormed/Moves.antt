-- ===== src/Tui/WellFormed/Moves.antt =====
-- Another mode, another page, another row: the moves behind the keys keep a well-formed `App` so.
use rustmail.Prelude.{ℕ, ◌+◌, ◌-◌, ◌%◌, ◌≡◌, refl, sym, ◌∙◌, true, false, Option, some, ltb, arith}
use rustmail.Prelude.Text.{Text, codes}
use rustmail.Tui.Types.{Mode, search, confirm}
use rustmail.Tui.App.{App}
use rustmail.Tui.Input.{
  show_mode, turn_to, next_page, prev_page, move_next, move_prev, move_to, start_search,
  ask_delete_all,
}
use rustmail.Tui.WellFormed.{WellFormed, if-Keeps, is_some, is_raw_view, is_confirm}
use rustmail.Tui.WellFormed.Steps.{
  true-ne-false, load_if-WellFormed, select_message-Moves, select_next-Moves, select_prev-Moves,
  fetch_messages-WellFormed,
}

-- Another mode, with what goes with it.
pub in_mode-WellFormed :
    (m : Mode) (action content : Option Text) (a : App)
    → is_some content ≡ is_raw_view m
    → (is_confirm m ≡ true → action ≡ some (codes "delete_all"))
    → WellFormed a
    → WellFormed (record a { mode = m; confirm_action = action; raw_content = content })
in_mode-WellFormed m action content a v c h = record {
  base = record {
    paged = h.base.paged;
    capped = h.base.capped;
    idle = h.base.idle;
    awaited = h.base.awaited;
    shown = h.base.shown;
    viewed = v;
    asked = c;
    ticks = h.base.ticks;
    frame = h.base.frame;
  };
  pointed = h.pointed;
}

-- A mode that neither views a source nor asks a question.
abbrev pub Plain : Mode → Type 0
Plain m = (is_raw_view m ≡ false) × (is_confirm m ≡ false)

abbrev pub Unviewed : App → Type 0
Unviewed a = is_some a.raw_content ≡ false

pub show_mode-WellFormed :
    (m : Mode) (a : App) → Plain m → Unviewed a → WellFormed a → WellFormed (show_mode m a)
show_mode-WellFormed m a p n h =
    let k =
      in_mode-WellFormed m a.confirm_action a.raw_content a (n ∙ sym p.0)
        (λ e. absurd (true-ne-false (sym e ∙ p.1))) h in
    record { base = k.base; pointed = k.pointed }

pub start_search-WellFormed : (a : App) → Unviewed a → WellFormed a → WellFormed (start_search a)
start_search-WellFormed a n h =
    let k = show_mode-WellFormed search a (refl, refl) n h in
    record { base = k.base; pointed = k.pointed }

pub ask_delete_all-WellFormed :
    (a : App) → Unviewed a → WellFormed a → WellFormed (ask_delete_all a)
ask_delete_all-WellFormed a n h =
    let k =
      in_mode-WellFormed confirm (some (codes "delete_all")) a.raw_content a n (λ e. refl) h in
    record { base = k.base; pointed = k.pointed }

-- The list from another row, a multiple of the page's size.
pub turned-WellFormed :
    (offset : ℕ) (a : App)
    → offset % 50 ≡ 0
    → WellFormed a
    → WellFormed (record a { offset = offset; view_changed = true })
turned-WellFormed offset a e h = record {
  base = record {
    paged = (h.base.paged.0, e);
    capped = h.base.capped;
    idle = h.base.idle;
    awaited = h.base.awaited;
    shown = h.base.shown;
    viewed = h.base.viewed;
    asked = h.base.asked;
    ticks = h.base.ticks;
    frame = h.base.frame;
  };
  pointed = h.pointed;
}

pub turn_to-WellFormed :
    (offset : ℕ) (a : App) → offset % 50 ≡ 0 → WellFormed a → WellFormed (turn_to offset a)
unfolding turn_to
turn_to-WellFormed offset a e h =
    fetch_messages-WellFormed (record a { offset = offset; view_changed = true })
      (turned-WellFormed offset a e h)

pub page-ahead : (o p : ℕ) → (p ≡ 50) × (o % 50 ≡ 0) → (o + p) % 50 ≡ 0
page-ahead o p h = omega (arith, h.0, h.1)

pub page-back : (o p : ℕ) → (p ≡ 50) × (o % 50 ≡ 0) → (o - p) % 50 ≡ 0
page-back o p h = omega (arith, h.0, h.1)

pub next_page-WellFormed : (a : App) → WellFormed a → WellFormed (next_page a)
unfolding next_page
next_page-WellFormed a h =
    if-Keeps WellFormed (ltb (a.offset + a.page_size) a.total) _ _
      (λ e. turn_to-WellFormed _ a (page-ahead a.offset a.page_size h.base.paged) h) (λ e. h)

pub prev_page-WellFormed : (a : App) → WellFormed a → WellFormed (prev_page a)
unfolding prev_page
prev_page-WellFormed a h =
    if-Keeps WellFormed (ltb 0 a.offset) _ _
      (λ e. turn_to-WellFormed _ a (page-back a.offset a.page_size h.base.paged) h) (λ e. h)

pub move_next-WellFormed : (a : App) → WellFormed a → WellFormed (move_next a)
unfolding move_next
move_next-WellFormed a h = load_if-WellFormed _ (select_next-Moves a h)

pub move_prev-WellFormed : (a : App) → WellFormed a → WellFormed (move_prev a)
unfolding move_prev
move_prev-WellFormed a h = load_if-WellFormed _ (select_prev-Moves a h)

pub move_to-WellFormed : (idx : ℕ) (a : App) → WellFormed a → WellFormed (move_to idx a)
unfolding move_to
move_to-WellFormed idx a h = load_if-WellFormed _ (select_message-Moves idx a h)
