-- ===== src/Storage/Like.antt =====
-- `count_matching` of crates/rustmail-storage/src/repo.rs: the pattern it builds, and SQL's `LIKE`.
pub mod Contains
use rustmail.Prelude.Text.{Text, lower_char, to_ascii_lowercase}
use rustmail.Prelude.{
  ℕ, Bool, true, false, ◌&&◌, ◌||◌, ◌==◌, Option, none, some, List, [], ◌∷◌, ◌++◌, length, is_empty,
  keep, if◌then◌else◌,
}
use rustmail.Storage.Schema.{MessageRow, Db}
use rustmail.Storage.Exec.{Result, ok, World, Exec, statement}

-- `s.replace(c, t)` for a character `c`
unfoldable pub replace : ℕ → Text → Text → Text
replace c t [] = []
replace c t (x ∷ s) = if x == c then t ++ replace c t s else x ∷ replace c t s

abbrev pub backslash : ℕ
backslash = b'\\'

unfoldable pub escape_like : Text → Text
unfolding replace
escape_like s =
    replace b'_' (backslash ∷ b'_' ∷ [])
      (replace b'%' (backslash ∷ b'%' ∷ []) (replace backslash (backslash ∷ backslash ∷ []) s))

-- `LIKE … ESCAPE '\'`: `%` stands for any characters, `_` for one, and a character behind the
-- backslash for itself, whatever the case of an ASCII letter.
abbrev pub literal : ℕ → (Text → Bool) → Text → Bool
literal c rest [] = false
literal c rest (x ∷ s) = lower_char x == lower_char c && rest s

abbrev pub any_one : (Text → Bool) → Text → Bool
any_one rest [] = false
any_one rest (x ∷ s) = rest s

abbrev pub anywhere : (Text → Bool) → Text → Bool
anywhere rest [] = rest []
anywhere rest (x ∷ s) = rest (x ∷ s) || anywhere rest s

-- The first argument says that the escape character has just been read.
unfoldable pub like : Bool → Text → Text → Bool
unfolding lower_char
like true [] s = false
like false [] s = is_empty s
like true (c ∷ p) s = literal c (like false p) s
like false (c ∷ p) s =
    let escaped = like true p s in
    let plain = literal c (like false p) s in
    if c == backslash
    then escaped
    else if c == b'%'
    then anywhere (like false p) s
    else if c == b'_'
    then any_one (like false p) s
    else plain

-- `to_lowercase` is Unicode's; SQLite's `LOWER` knows ASCII.
module _ (to_lowercase : Text → Text) where
  unfoldable pub like_pattern : Text → Text
  unfolding escape_like
  like_pattern needle = b'%' ∷ (escape_like (to_lowercase needle) ++ b'%' ∷ [])

  unfoldable pub column_matches : Option Text → Option Text → Bool
  unfolding like_pattern like to_ascii_lowercase
  column_matches none column = true
  column_matches (some needle) none = false
  column_matches (some needle) (some column) =
      like false (like_pattern needle) (to_ascii_lowercase column)

  unfoldable pub count_matching : World → (subject sender recipient : Option Text) → Exec ℕ
  unfolding column_matches statement
  count_matching w subject sender recipient = statement w (λ d. (
    ok (
        length (
          keep
            (λ m.
              column_matches subject m.summary.subject
              && column_matches sender (some m.summary.sender)
              && column_matches recipient (some m.summary.recipients))
            d.messages)),
    d,
  ))
