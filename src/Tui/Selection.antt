-- ===== src/Tui/Selection.antt =====
-- `SelectionAnchor` and `resolve_selection` of crates/rustmail-tui/src/app.rs.
pub mod Follows
use rustmail.Prelude.{
  ℕ, suc, ◌-◌, min, Bool, true, false, Option, none, some, List, [], ◌∷◌, length, take, drop, any,
}
use mathlib.Core.List.{reverse}
use rustmail.Prelude.Text.{Text, same}
use rustmail.Tui.Types.{MessageSummary}

pub record SelectionAnchor : Type 0 where
  pub ids : List Text
  pub index : ℕ

abbrev pub is_listed_in : List MessageSummary → Text → Bool
is_listed_in ms id = any (λ m. same m.id id) ms

-- The map from ids to positions: of several messages with one id, the last.
abbrev pub or_here : Bool → Option ℕ → Option ℕ
or_here here (some n) = some (suc n)
or_here true none = some 0
or_here false none = none

unfoldable pub position_of : List MessageSummary → Text → Option ℕ
position_of [] id = none
position_of (m ∷ ms) id = or_here (same m.id id) (position_of ms id)

abbrev pub or_else {ℓ} : {A : Type ℓ} → Option A → Option A → Option A
or_else (some x) o = some x
or_else none o = o

abbrev pub find_map {ℓ κ} : {A : Type ℓ} → {B : Type κ} → (A → Option B) → List A → Option B
find_map f [] = none
find_map f (x ∷ xs) = or_else (f x) (find_map f xs)

abbrev pub unwrap_or {ℓ} : {A : Type ℓ} → Option A → A → A
unwrap_or (some x) d = x
unwrap_or none d = d

unfoldable pub resolve_selection : List Text → ℕ → List MessageSummary → ℕ
resolve_selection old index new =
    let above = take (min index (length old)) old in
    let from_anchor = drop (min index (length old)) old in
    unwrap_or
      (or_else (find_map (position_of new) from_anchor)
        (find_map (position_of new) (reverse above)))
      (min index (length new - 1))
