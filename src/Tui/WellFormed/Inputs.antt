-- ===== src/Tui/WellFormed/Inputs.antt =====
-- The keys keep a well-formed `App` so.
use rustmail.Prelude.{
  ℕ, ◌-◌, ◌≡◌, refl, sym, ap, ◌∙◌, true, ◌&&◌, ◌||◌, none, some, List, [], ◌∷◌, All, length, ◌==◌,
  arith,
}
use rustmail.Prelude.Text.{Text, codes}
use rustmail.Tui.Types.{
  KeyCode, char, up, down, left, right, enter, tab, back_tab, esc, backspace, other, KeyEvent, Mode,
  normal, search, raw_view, confirm, help, Focus, list, preview, raw,
}
use rustmail.Tui.App.{App, same_option, delete_all_messages}
use rustmail.Tui.Input.{
  list_keys, preview_keys, raw_view_keys, is_char, quit, handle_list_char, handle_list_key,
  switch_preview_tab, open_raw_tab, handle_preview_char, handle_preview_key, search_for,
  handle_search_key, close_raw, press, move_first, move_last, handle_raw_view_key, delete_all,
  confirmed, close_confirm, is_yes, handle_confirm_key, handle_help_key, handle_normal_key,
  handle_mode_key, handle_key,
}
use rustmail.Tui.WellFormed.{WellFormed, if-Keeps, is_some, is_raw_view}
use rustmail.Tui.WellFormed.Steps.{
  true-ne-false, raw_content-spawn, spawn-WellFormed, fetch_messages-WellFormed,
}
use rustmail.Tui.WellFormed.Previews.{
  toggle_read-WellFormed, toggle_star-WellFormed, delete_selected-WellFormed, show_raw-WellFormed,
  ensure_raw_loaded-WellFormed,
}
use rustmail.Tui.WellFormed.Moves.{
  in_mode-WellFormed, Unviewed, show_mode-WellFormed, start_search-WellFormed,
  ask_delete_all-WellFormed, turned-WellFormed, next_page-WellFormed, prev_page-WellFormed,
  move_next-WellFormed, move_prev-WellFormed, move_to-WellFormed,
}

-- What each key of a table may rely on, and keeps.
abbrev Bound : (App → Type 0) → ℕ × (App → App) → Type 0
Bound P (k, f) = (a : App) → P a → WellFormed a → WellFormed (f a)

press-WellFormed :
    (P : App → Type 0) (keys : List (ℕ × (App → App))) (c : ℕ) (a : App)
    → All (Bound P) keys
    → P a
    → WellFormed a
    → WellFormed (press keys c a)
press-WellFormed P [] c a b n h = h
press-WellFormed P ((k, f) ∷ keys) c a (b, bs) n h =
    if-Keeps WellFormed (c == k) (f a) (press keys c a) (λ e. b a n h)
      (λ e. press-WellFormed P keys c a bs n h)

abbrev Any : App → Type 0
Any a = Unit

handle_list_char-WellFormed :
    (c : ℕ) (a : App) → Unviewed a → WellFormed a → WellFormed (handle_list_char c a)
unfolding handle_list_char move_first move_last
handle_list_char-WellFormed c a = press-WellFormed Unviewed list_keys c a (
  (λ a n h. (record { base = h.base; pointed = h.pointed })),
  (
    (λ a n h. move_next-WellFormed a h),
    (
      (λ a n h. move_prev-WellFormed a h),
      (
        (λ a n h. move_to-WellFormed 0 a h),
        (
          (λ a n h. move_to-WellFormed (length a.messages - 1) a h),
          (
            (λ a n h. (record { base = h.base; pointed = h.pointed })),
            (
              (λ a n h. start_search-WellFormed a n h),
              (
                (λ a n h. toggle_read-WellFormed a h),
                (
                  (λ a n h. toggle_star-WellFormed a h),
                  (
                    (λ a n h. delete_selected-WellFormed a h),
                    (
                      (λ a n h. ask_delete_all-WellFormed a n h),
                      (
                        (λ a n h. show_raw-WellFormed a h),
                        (
                          (λ a n h. next_page-WellFormed a h),
                          (
                            (λ a n h. prev_page-WellFormed a h),
                            ((λ a n h. show_mode-WellFormed help a (refl, refl) n h), tt),
                          ),
                        ),
                      ),
                    ),
                  ),
                ),
              ),
            ),
          ),
        ),
      ),
    ),
  ),
)

handle_list_key-WellFormed :
    (k : KeyCode) (a : App) → Unviewed a → WellFormed a → WellFormed (handle_list_key k a)
unfolding handle_list_key
handle_list_key-WellFormed (char c) a n h = handle_list_char-WellFormed c a n h
handle_list_key-WellFormed down a n h = move_next-WellFormed a h
handle_list_key-WellFormed up a n h = move_prev-WellFormed a h
handle_list_key-WellFormed enter a n h = (record { base = h.base; pointed = h.pointed })
handle_list_key-WellFormed right a n h = (record { base = h.base; pointed = h.pointed })
handle_list_key-WellFormed tab a n h = (record { base = h.base; pointed = h.pointed })
handle_list_key-WellFormed left a n h = h
handle_list_key-WellFormed back_tab a n h = h
handle_list_key-WellFormed esc a n h = h
handle_list_key-WellFormed backspace a n h = h
handle_list_key-WellFormed other a n h = h

pub open_raw_tab-WellFormed : (a : App) → WellFormed a → WellFormed (open_raw_tab a)
unfolding open_raw_tab
open_raw_tab-WellFormed a h =
    ensure_raw_loaded-WellFormed (switch_preview_tab raw a)
      (record { base = h.base; pointed = h.pointed })

handle_preview_char-WellFormed :
    (c : ℕ) (a : App) → WellFormed a → WellFormed (handle_preview_char c a)
unfolding handle_preview_char
handle_preview_char-WellFormed c a =
    press-WellFormed Any preview_keys c a
      (
        (λ a n h. (record { base = h.base; pointed = h.pointed })),
        (
          (λ a n h. (record { base = h.base; pointed = h.pointed })),
          (
            (λ a n h. (record { base = h.base; pointed = h.pointed })),
            (
              (λ a n h. (record { base = h.base; pointed = h.pointed })),
              (
                (λ a n h. (record { base = h.base; pointed = h.pointed })),
                (
                  (λ a n h. (record { base = h.base; pointed = h.pointed })),
                  (
                    (λ a n h. open_raw_tab-WellFormed a h),
                    (
                      (λ a n h. toggle_read-WellFormed a h),
                      (
                        (λ a n h. toggle_star-WellFormed a h),
                        (
                          (λ a n h. delete_selected-WellFormed a h),
                          ((λ a n h. show_raw-WellFormed a h), tt),
                        ),
                      ),
                    ),
                  ),
                ),
              ),
            ),
          ),
        ),
      )
      tt

handle_preview_key-WellFormed :
    (k : KeyCode) (a : App) → WellFormed a → WellFormed (handle_preview_key k a)
unfolding handle_preview_key
handle_preview_key-WellFormed (char c) a h = handle_preview_char-WellFormed c a h
handle_preview_key-WellFormed esc a h = (record { base = h.base; pointed = h.pointed })
handle_preview_key-WellFormed left a h = (record { base = h.base; pointed = h.pointed })
handle_preview_key-WellFormed tab a h = (record { base = h.base; pointed = h.pointed })
handle_preview_key-WellFormed back_tab a h = (record { base = h.base; pointed = h.pointed })
handle_preview_key-WellFormed down a h = (record { base = h.base; pointed = h.pointed })
handle_preview_key-WellFormed up a h = (record { base = h.base; pointed = h.pointed })
handle_preview_key-WellFormed right a h = h
handle_preview_key-WellFormed enter a h = h
handle_preview_key-WellFormed backspace a h = h
handle_preview_key-WellFormed other a h = h

search_for-WellFormed :
    (q : Text) (a : App) → Unviewed a → WellFormed a → WellFormed (search_for q a)
unfolding search_for
search_for-WellFormed q a n h =
    let k = show_mode-WellFormed normal _ (refl, refl) n (turned-WellFormed 0 a (omega arith) h) in
    fetch_messages-WellFormed
      (record a { search_query = q; mode = normal; offset = 0; view_changed = true })
      (record { base = k.base; pointed = k.pointed })

handle_search_key-WellFormed :
    (k : KeyCode) (a : App) → Unviewed a → WellFormed a → WellFormed (handle_search_key k a)
unfolding handle_search_key
handle_search_key-WellFormed enter a n h = search_for-WellFormed a.search_input a n h
handle_search_key-WellFormed esc a n h =
    if-Keeps WellFormed _ _ _ (λ e. search_for-WellFormed [] a n h)
      (λ e. show_mode-WellFormed normal a (refl, refl) n h)
handle_search_key-WellFormed backspace a n h = (record { base = h.base; pointed = h.pointed })
handle_search_key-WellFormed (char c) a n h = (record { base = h.base; pointed = h.pointed })
handle_search_key-WellFormed up a n h = h
handle_search_key-WellFormed down a n h = h
handle_search_key-WellFormed left a n h = h
handle_search_key-WellFormed right a n h = h
handle_search_key-WellFormed tab a n h = h
handle_search_key-WellFormed back_tab a n h = h
handle_search_key-WellFormed other a n h = h

close_raw-WellFormed : (a : App) → WellFormed a → WellFormed (close_raw a)
close_raw-WellFormed a h =
    let k =
      in_mode-WellFormed normal a.confirm_action none a refl (λ e. absurd (true-ne-false (sym e)))
        h in
    record { base = k.base; pointed = k.pointed }

handle_raw_view_key-WellFormed :
    (k : KeyCode) (a : App) → WellFormed a → WellFormed (handle_raw_view_key k a)
unfolding handle_raw_view_key
handle_raw_view_key-WellFormed (char c) a h =
    press-WellFormed Any raw_view_keys c a
      (
        (λ a n h. close_raw-WellFormed a h),
        (
          (λ a n h. (record { base = h.base; pointed = h.pointed })),
          ((λ a n h. (record { base = h.base; pointed = h.pointed })), tt),
        ),
      )
      tt h
handle_raw_view_key-WellFormed esc a h = close_raw-WellFormed a h
handle_raw_view_key-WellFormed down a h = (record { base = h.base; pointed = h.pointed })
handle_raw_view_key-WellFormed up a h = (record { base = h.base; pointed = h.pointed })
handle_raw_view_key-WellFormed left a h = h
handle_raw_view_key-WellFormed right a h = h
handle_raw_view_key-WellFormed enter a h = h
handle_raw_view_key-WellFormed tab a h = h
handle_raw_view_key-WellFormed back_tab a h = h
handle_raw_view_key-WellFormed backspace a h = h
handle_raw_view_key-WellFormed other a h = h

delete_all-WellFormed : (a : App) → WellFormed a → WellFormed (delete_all a)
unfolding delete_all
delete_all-WellFormed a h = spawn-WellFormed delete_all_messages a h

close_confirm-WellFormed : (a : App) → Unviewed a → WellFormed a → WellFormed (close_confirm a)
close_confirm-WellFormed a n h =
    let k =
      in_mode-WellFormed normal none a.raw_content a n (λ e. absurd (true-ne-false (sym e))) h in
    record { base = k.base; pointed = k.pointed }

confirmed-WellFormed : (a : App) → WellFormed a → WellFormed (confirmed a)
unfolding confirmed
confirmed-WellFormed a h =
    if-Keeps WellFormed (same_option a.confirm_action (some (codes "delete_all"))) _ _
      (λ e. delete_all-WellFormed a h) (λ e. h)

confirmed-Unviewed : (a : App) → Unviewed a → Unviewed (confirmed a)
unfolding confirmed delete_all
confirmed-Unviewed a n =
    if-Keeps Unviewed (same_option a.confirm_action (some (codes "delete_all"))) _ _
      (λ e. ap is_some (raw_content-spawn delete_all_messages a) ∙ n) (λ e. n)

handle_confirm_key-WellFormed :
    (k : KeyCode) (a : App) → Unviewed a → WellFormed a → WellFormed (handle_confirm_key k a)
unfolding handle_confirm_key
handle_confirm_key-WellFormed k a n h =
    if-Keeps WellFormed (is_yes k) _ _
      (λ e.
        close_confirm-WellFormed (confirmed a) (confirmed-Unviewed a n) (confirmed-WellFormed a h))
      (λ e. close_confirm-WellFormed a n h)

handle_help_key-WellFormed :
    (k : KeyCode) (a : App) → Unviewed a → WellFormed a → WellFormed (handle_help_key k a)
unfolding handle_help_key
handle_help_key-WellFormed (char c) a n h =
    if-Keeps WellFormed (c == b'q' || c == b'?') _ _
      (λ e. show_mode-WellFormed normal a (refl, refl) n h) (λ e. h)
handle_help_key-WellFormed esc a n h = show_mode-WellFormed normal a (refl, refl) n h
handle_help_key-WellFormed enter a n h = show_mode-WellFormed normal a (refl, refl) n h
handle_help_key-WellFormed up a n h = h
handle_help_key-WellFormed down a n h = h
handle_help_key-WellFormed left a n h = h
handle_help_key-WellFormed right a n h = h
handle_help_key-WellFormed tab a n h = h
handle_help_key-WellFormed back_tab a n h = h
handle_help_key-WellFormed backspace a n h = h
handle_help_key-WellFormed other a n h = h

handle_normal_key-WellFormed :
    (f : Focus) (k : KeyCode) (a : App)
    → Unviewed a
    → WellFormed a
    → WellFormed (handle_normal_key f k a)
unfolding handle_normal_key
handle_normal_key-WellFormed list k a n h = handle_list_key-WellFormed k a n h
handle_normal_key-WellFormed preview k a n h = handle_preview_key-WellFormed k a h

handle_mode_key-WellFormed :
    (m : Mode) (k : KeyCode) (a : App)
    → is_some a.raw_content ≡ is_raw_view m
    → WellFormed a
    → WellFormed (handle_mode_key m k a)
unfolding handle_mode_key
handle_mode_key-WellFormed search k a n h = handle_search_key-WellFormed k a n h
handle_mode_key-WellFormed raw_view k a n h = handle_raw_view_key-WellFormed k a h
handle_mode_key-WellFormed confirm k a n h = handle_confirm_key-WellFormed k a n h
handle_mode_key-WellFormed help k a n h = handle_help_key-WellFormed k a n h
handle_mode_key-WellFormed normal k a n h = handle_normal_key-WellFormed a.focus k a n h

pub handle_key-WellFormed : (k : KeyEvent) (a : App) → WellFormed a → WellFormed (handle_key k a)
unfolding handle_key
handle_key-WellFormed k a h =
    if-Keeps WellFormed (is_char b'c' k.code && k.control) (quit a)
      (handle_mode_key a.mode k.code a) (λ e. record { base = h.base; pointed = h.pointed })
      (λ e. handle_mode_key-WellFormed a.mode k.code a h.base.viewed h)
