-- ===== src/Tui/WellFormed/Steps.antt =====
-- The methods that the handlers share keep a well-formed `App` so.
use rustmail.Prelude.{
  ℕ, ◌-◌, ◌≤◌, ◌≡◌, refl, Bool, true, false, not, ◌&&◌, Option, none, some, List, [], ◌∷◌, ◌++◌,
  length, is_empty, ltb, ltb→lt, ◌==◌, if◌then◌else◌, Bool-cases, inl, inr, arith,
}
use rustmail.Prelude.Text.{Text, codes}
use rustmail.Tui.Types.{next_u64, MessageSummary}
use rustmail.Tui.Selection.{SelectionAnchor}
use rustmail.Tui.Selection.Follows.{resolve_selection-le}
use rustmail.Tui.App.{
  fetching, App, Request, set_error, reap, spawn, selected_message, sync_list_state, select_message,
  select_next, select_prev, reanchor_selection, fetch_messages, same_option,
}
use rustmail.Tui.Preview.{
  awaiting_preview, no_preview, request_preview, load_preview_of, load_preview, retarget_preview,
  retarget_if, restore_selection, load_if,
}
use rustmail.Tui.WellFormed.{Base, WellFormed, if-Keeps}

pub set_error-WellFormed : (msg : Text) (a : App) → WellFormed a → WellFormed (set_error msg a)
unfolding set_error
set_error-WellFormed msg a h = record {
  base = record {
    paged = h.base.paged;
    capped = h.base.capped;
    idle = h.base.idle;
    awaited = h.base.awaited;
    shown = h.base.shown;
    viewed = h.base.viewed;
    asked = h.base.asked;
    ticks = omega arith;
    frame = h.base.frame;
  };
  pointed = h.pointed;
}

pub true-ne-false : ¬ (true ≡ false)
true-ne-false e = cc

pub reap-WellFormed : (ts : List (Option Text)) (a : App) → WellFormed a → WellFormed (reap ts a)
unfolding reap
reap-WellFormed [] a h = record { base = h.base; pointed = h.pointed }
reap-WellFormed (none ∷ ts) a h = reap-WellFormed ts a h
reap-WellFormed (some e ∷ ts) a h =
    reap-WellFormed ts _ (set_error-WellFormed (codes "Background task failed: " ++ e) a h)

pub spawn-WellFormed : (r : Request) (a : App) → WellFormed a → WellFormed (spawn r a)
unfolding spawn
spawn-WellFormed r a h =
    let k = reap-WellFormed a.finished a h in record { base = k.base; pointed = k.pointed }

pub raw_content-reap : (ts : List (Option Text)) (a : App) → (reap ts a).raw_content ≡ a.raw_content
unfolding reap set_error
raw_content-reap [] a = refl
raw_content-reap (none ∷ ts) a = raw_content-reap ts a
raw_content-reap (some e ∷ ts) a =
    raw_content-reap ts (set_error (codes "Background task failed: " ++ e) a)

pub raw_content-spawn : (r : Request) (a : App) → (spawn r a).raw_content ≡ a.raw_content
unfolding spawn
raw_content-spawn r a = raw_content-reap a.finished a

pub no_preview-WellFormed : (a : App) → WellFormed a → WellFormed (no_preview a)
no_preview-WellFormed a h = record {
  base = record {
    paged = h.base.paged;
    capped = h.base.capped;
    idle = h.base.idle;
    awaited = λ e. refl;
    shown = refl;
    viewed = h.base.viewed;
    asked = h.base.asked;
    ticks = h.base.ticks;
    frame = h.base.frame;
  };
  pointed = h.pointed;
}

pub await-WellFormed :
    (l : Bool) (o : Option ℕ) (a : App)
    → (l ≡ false → o ≡ none)
    → WellFormed a
    → WellFormed (record a { preview_loading = l; pending_preview = o })
await-WellFormed l o a k h = record {
  base = record {
    paged = h.base.paged;
    capped = h.base.capped;
    idle = h.base.idle;
    awaited = k;
    shown = h.base.shown;
    viewed = h.base.viewed;
    asked = h.base.asked;
    ticks = h.base.ticks;
    frame = h.base.frame;
  };
  pointed = h.pointed;
}

pub request_preview-WellFormed :
    (m : MessageSummary) (a : App) → WellFormed a → WellFormed (request_preview m a)
unfolding request_preview
request_preview-WellFormed m a h =
    let k =
      await-WellFormed true (some (next_u64 a.last_request_id)) a (λ e. absurd (true-ne-false e))
        h in
    spawn-WellFormed _ (awaiting_preview a) (record { base = k.base; pointed = k.pointed })

pub load_preview_of-WellFormed :
    (o : Option MessageSummary) (a : App) → WellFormed a → WellFormed (load_preview_of o a)
unfolding load_preview_of
load_preview_of-WellFormed none a h = no_preview-WellFormed a h
load_preview_of-WellFormed (some m) a h =
    if-Keeps WellFormed (same_option a.last_preview_id (some m.id)) _ _
      (λ e. await-WellFormed false none a (λ e. refl) h) (λ e. request_preview-WellFormed m a h)

pub load_preview-WellFormed : (a : App) → WellFormed a → WellFormed (load_preview a)
unfolding load_preview
load_preview-WellFormed a h = load_preview_of-WellFormed (selected_message a) a h

pub retarget_preview-WellFormed : (a : App) → WellFormed a → WellFormed (retarget_preview a)
unfolding retarget_preview
retarget_preview-WellFormed a h = load_preview-WellFormed (no_preview a) (no_preview-WellFormed a h)

pub reanchor_selection-WellFormed :
    (anchor : SelectionAnchor) (a : App) → Base a → WellFormed (reanchor_selection anchor a).1
unfolding reanchor_selection sync_list_state
reanchor_selection-WellFormed anchor a h = record {
  base = h.base;
  pointed = record {
    within = resolve_selection-le anchor.ids anchor.index a.messages;
    listed = refl;
    barred = refl;
  };
}

pub retarget_if-WellFormed : (r : Bool × App) → WellFormed r.1 → WellFormed (retarget_if r)
unfolding retarget_if
retarget_if-WellFormed (moved, a) h =
    if-Keeps WellFormed (moved && not a.loading) _ _ (λ e. retarget_preview-WellFormed a h) (λ e. h)

-- The list may be any: the cursor is put back on it.
pub restore_selection-WellFormed :
    (anchor : SelectionAnchor) (a : App) → Base a → WellFormed (restore_selection anchor a)
unfolding restore_selection
restore_selection-WellFormed anchor a h =
    retarget_if-WellFormed (reanchor_selection anchor a) (reanchor_selection-WellFormed anchor a h)

-- What a move of the cursor and its test make of the state.
abbrev pub Moves : Bool × App → Type 0
Moves (moved, a) = WellFormed a

pub if-Moves :
    (b : Bool) (x y : Bool × App)
    → (b ≡ true → Moves x)
    → (b ≡ false → Moves y)
    → Moves (if b then x else y)
if-Moves true x y h k = h refl
if-Moves false x y h k = k refl

pub load_if-WellFormed : (r : Bool × App) → Moves r → WellFormed (load_if r)
unfolding load_if
load_if-WellFormed (moved, a) h =
    if-Keeps WellFormed moved _ _ (λ e. load_preview-WellFormed a h) (λ e. h)

pub row-le : (idx n : ℕ) (b : Bool) → (ltb idx n && b) ≡ true → idx ≤ n - 1
row-le idx n b e = elim (Bool-cases (ltb idx n)) [
  | inl lt ↦ omega (arith, ltb→lt idx n lt)
  | inr ge ↦ cc
]

pub select_message-Moves : (idx : ℕ) (a : App) → WellFormed a → Moves (select_message idx a)
unfolding select_message sync_list_state
select_message-Moves idx a h =
    if-Moves (ltb idx (length a.messages) && not (idx == a.selected)) _ _
      (λ e. record {
        base = h.base;
        pointed = record {
          within = row-le idx (length a.messages) _ e;
          listed = refl;
          barred = refl;
        };
      })
      (λ e. h)

pub select_next-Moves : (a : App) → WellFormed a → Moves (select_next a)
unfolding select_next
select_next-Moves a h =
    if-Moves (is_empty a.messages) _ _ (λ e. h) (λ e. select_message-Moves _ a h)

pub select_prev-Moves : (a : App) → WellFormed a → Moves (select_prev a)
unfolding select_prev
select_prev-Moves a h =
    if-Moves (is_empty a.messages) _ _ (λ e. h) (λ e. select_message-Moves _ a h)

pub fetch_messages-WellFormed : (a : App) → WellFormed a → WellFormed (fetch_messages a)
unfolding fetch_messages
fetch_messages-WellFormed a h = spawn-WellFormed _ (fetching a) (record {
  base = record {
    paged = h.base.paged;
    capped = h.base.capped;
    idle = λ e. absurd (true-ne-false e);
    awaited = h.base.awaited;
    shown = h.base.shown;
    viewed = h.base.viewed;
    asked = h.base.asked;
    ticks = h.base.ticks;
    frame = h.base.frame;
  };
  pointed = h.pointed;
})
