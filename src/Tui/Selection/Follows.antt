-- ===== src/Tui/Selection/Follows.antt =====
-- Where the cursor goes when the list changes.
use mathlib.Core.List.{reverse, append_assoc, reverse-cons, reverse-append}
use rustmail.Prelude.{
  ℕ, zero, suc, ◌-◌, ◌≤◌, ◌<◌, ◌≡◌, refl, ap, ◌∙◌, min, Bool, true, false, ◌||◌, Option, none, some,
  List, [], ◌∷◌, ◌++◌, All, All-append, length, length-append, take, drop, arith,
}
use rustmail.Prelude.Text.{Text, same, same-true}
use rustmail.Tui.Types.{MessageSummary}
use rustmail.Tui.Selection.{
  or_here, is_listed_in, position_of, or_else, find_map, unwrap_or, resolve_selection,
}

-- The identifier at a position.
abbrev pub id_at : List MessageSummary → ℕ → Option Text
id_at [] n = none
id_at (m ∷ ms) zero = some m.id
id_at (m ∷ ms) (suc n) = id_at ms n

abbrev Found : List MessageSummary → Text → Option ℕ → Type 0
Found ms id none = is_listed_in ms id ≡ false
Found ms id (some p) = (id_at ms p ≡ some id) × ((p < length ms) × (is_listed_in ms id ≡ true))

or_true : (b : Bool) → (b || true) ≡ true
or_true true = refl
or_true false = refl

or_here-Found :
    (m : MessageSummary) (ms : List MessageSummary) (id : Text) (here : Bool) (o : Option ℕ)
    → same m.id id ≡ here
    → Found ms id o
    → Found (m ∷ ms) id (or_here here o)
or_here-Found m ms id here (some p) e (at, (lt, listed)) =
    (at, (omega arith, rw listed (or_true (same m.id id))))
or_here-Found m ms id true none e h = (ap some (same-true m.id id e), (omega arith, rw e refl))
or_here-Found m ms id false none e h = rw (e, h)

position_of-Found : (ms : List MessageSummary) (id : Text) → Found ms id (position_of ms id)
unfolding position_of
position_of-Found [] id = refl
position_of-Found (m ∷ ms) id =
    or_here-Found m ms id (same m.id id) (position_of ms id) refl (position_of-Found ms id)

abbrev Inside : ℕ → Option ℕ → Type 0
Inside n none = Unit
Inside n (some p) = p < n

Inside-Found :
    (ms : List MessageSummary) (id : Text) (o : Option ℕ) → Found ms id o → Inside (length ms) o
Inside-Found ms id none h = tt
Inside-Found ms id (some p) (at, (lt, listed)) = lt

or_else-Inside : (n : ℕ) (o p : Option ℕ) → Inside n o → Inside n p → Inside n (or_else o p)
or_else-Inside n none p h k = k
or_else-Inside n (some q) p h k = h

find_map-Inside :
    (ms : List MessageSummary) (ids : List Text)
    → Inside (length ms) (find_map (position_of ms) ids)
find_map-Inside ms [] = tt
find_map-Inside ms (id ∷ ids) =
    or_else-Inside _ (position_of ms id) _ (Inside-Found ms id _ (position_of-Found ms id))
      (find_map-Inside ms ids)

unwrap_or-le : (n d : ℕ) (o : Option ℕ) → Inside n o → d ≤ n - 1 → unwrap_or o d ≤ n - 1
unwrap_or-le n d none h k = k
unwrap_or-le n d (some p) h k = omega arith

-- Whatever the list was and is, the cursor rests on one of its rows, or on row 0 of an empty list.
pub resolve_selection-le :
    (old : List Text) (index : ℕ) (new : List MessageSummary)
    → resolve_selection old index new ≤ length new - 1
unfolding resolve_selection
resolve_selection-le old index new =
    unwrap_or-le (length new) _ _
      (or_else-Inside _ (find_map (position_of new) (drop (min index (length old)) old)) _
        (find_map-Inside new _) (find_map-Inside new _))
      (omega arith)

take-append : {A : Type 0} (xs ys : List A) → take (length xs) (xs ++ ys) ≡ xs
take-append [] ys = refl
take-append (x ∷ xs) ys = ap (◌∷◌ x) (take-append xs ys)

drop-append : {A : Type 0} (xs ys : List A) → drop (length xs) (xs ++ ys) ≡ ys
drop-append [] ys = refl
drop-append (x ∷ xs) ys = drop-append xs ys

abbrev pub Gone : List MessageSummary → Text → Type 0
Gone new id = is_listed_in new id ≡ false

abbrev Hits : List MessageSummary → Text → Option ℕ → Type 0
Hits new id none = ⊥
Hits new id (some p) = id_at new p ≡ some id

Hits-Found :
    (new : List MessageSummary) (id : Text) (o q : Option ℕ)
    → is_listed_in new id ≡ true
    → Found new id o
    → Hits new id (or_else o q)
Hits-Found new id none q e h = cc
Hits-Found new id (some p) q e h = h.0

or_else-Gone :
    (new : List MessageSummary) (id : Text) (o q : Option ℕ)
    → Gone new id
    → Found new id o
    → or_else o q ≡ q
or_else-Gone new id none q e h = refl
or_else-Gone new id (some p) q e (at, (lt, listed)) = cc

find_map-Hits :
    (new : List MessageSummary) (gone : List Text) (id : Text) (rest : List Text)
    → All (Gone new) gone
    → is_listed_in new id ≡ true
    → Hits new id (find_map (position_of new) (gone ++ id ∷ rest))
find_map-Hits new [] id rest h e = Hits-Found new id _ _ e (position_of-Found new id)
find_map-Hits new (x ∷ gone) id rest (g, h) e =
    rw (or_else-Gone new x (position_of new x) _ g (position_of-Found new x))
      (find_map-Hits new gone id rest h e)

id_at-unwrap_or :
    (new : List MessageSummary) (id : Text) (o q : Option ℕ) (d : ℕ)
    → Hits new id o
    → id_at new (unwrap_or (or_else o q) d) ≡ some id
id_at-unwrap_or new id none q d h = absurd h
id_at-unwrap_or new id (some p) q d h = h

min-length-append : {A : Type 0} (xs ys : List A) → min (length xs) (length (xs ++ ys)) ≡ length xs
min-length-append xs ys = omega (arith, length-append xs ys)

resolve_selection-append :
    (above rest : List Text) (new : List MessageSummary)
    → resolve_selection (above ++ rest) (length above) new
      ≡ unwrap_or
          (or_else (find_map (position_of new) rest) (find_map (position_of new) (reverse above)))
          (min (length above) (length new - 1))
unfolding resolve_selection
resolve_selection-append above rest new =
    let find = find_map (position_of new) in
    let last = min (length above) (length new - 1) in
    ap
      (λ n.
        unwrap_or
          (or_else (find (drop n (above ++ rest))) (find (reverse (take n (above ++ rest))))) last)
      (min-length-append above rest)
    ∙ (ap
          (λ xs.
            unwrap_or (or_else (find xs) (find (reverse (take (length above) (above ++ rest)))))
              last)
          (drop-append above rest)
        ∙ ap (λ xs. unwrap_or (or_else (find rest) (find (reverse xs))) last)
            (take-append above rest))

-- When the list changes under a cursor that stands behind the rows `above`, and the messages at and below
-- it are gone up to one that the new list still has, the cursor rests on that one: on the message
-- that it was on if that is still there, and else on the row that took its place.
pub resolve_selection-follows :
    (above gone : List Text) (id : Text) (below : List Text) (new : List MessageSummary)
    → All (Gone new) gone
    → is_listed_in new id ≡ true
    → id_at new (resolve_selection (above ++ (gone ++ id ∷ below)) (length above) new) ≡ some id
resolve_selection-follows above gone id below new h e =
    ap (id_at new) (resolve_selection-append above (gone ++ id ∷ below) new)
    ∙ id_at-unwrap_or new id _ _ _ (find_map-Hits new gone id below h e)

find_map-Gone :
    (new : List MessageSummary) (ids : List Text)
    → All (Gone new) ids
    → find_map (position_of new) ids ≡ none
find_map-Gone new [] h = refl
find_map-Gone new (x ∷ ids) (g, h) =
    or_else-Gone new x (position_of new x) _ g (position_of-Found new x) ∙ find_map-Gone new ids h

All-reverse :
    (new : List MessageSummary) (ids : List Text)
    → All (Gone new) ids
    → All (Gone new) (reverse ids)
All-reverse new [] h = tt
All-reverse new (x ∷ ids) (g, h) =
    rw (reverse-cons x ids) (All-append (Gone new) (reverse ids) _ (All-reverse new ids h) (g, tt))

reverse-around :
    (above : List Text) (id : Text) (gone : List Text)
    → reverse (above ++ id ∷ gone) ≡ reverse gone ++ id ∷ reverse above
reverse-around above id gone =
    reverse-append above (id ∷ gone)
    ∙ (ap (λ l. l ++ reverse above) (reverse-cons id gone)
        ∙ append_assoc (reverse gone) (id ∷ []) (reverse above))

unwrap_or-Hits :
    (new : List MessageSummary) (id : Text) (o : Option ℕ) (d : ℕ)
    → Hits new id o
    → id_at new (unwrap_or o d) ≡ some id
unwrap_or-Hits new id none d h = absurd h
unwrap_or-Hits new id (some p) d h = h

-- When no message at or below the cursor is left, it rests on the nearest one above it that is.
pub resolve_selection-above :
    (above : List Text) (id : Text) (gone below : List Text) (new : List MessageSummary)
    → All (Gone new) gone
    → All (Gone new) below
    → is_listed_in new id ≡ true
    → id_at new
        (resolve_selection ((above ++ id ∷ gone) ++ below) (length (above ++ id ∷ gone)) new)
      ≡ some id
resolve_selection-above above id gone below new g h e =
    let back = find_map (position_of new) (reverse (above ++ id ∷ gone)) in
    let last = min (length (above ++ id ∷ gone)) (length new - 1) in
    ap (id_at new) (
      resolve_selection-append (above ++ id ∷ gone) below new
      ∙ ap (λ o. unwrap_or (or_else o back) last) (find_map-Gone new below h))
    ∙ unwrap_or-Hits new id back last (
        rw (reverse-around above id gone)
          (find_map-Hits new (reverse gone) id (reverse above) (All-reverse new gone g) e))
