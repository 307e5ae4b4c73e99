-- ===== src/Api/Messages.antt =====
-- The message handlers of crates/rustmail-api/src/handlers.rs over the repository: what a request
-- asks for, what it does, what is broadcast and what it is answered.
pub mod Windows
pub mod Walk
use rustmail.Prelude.Text.{
  Text, codes, same, utf8_len, ParseInt, parsed, parse_digits, parse_unsigned,
}
use rustmail.Prelude.{
  ℕ, zero, suc, ◌+◌, ◌-◌, ◌^◌, min, max, Bool, true, false, not, ◌&&◌, ◌||◌, ◌==◌, Option, none,
  some, List, [], ◌∷◌, ◌++◌, length, is_empty, any, take, leb, ltb, ℤ, pos, negsuc, from_zero,
  if◌then◌else◌,
}
use rustmail.Storage.Schema.{MessageSummary, IndexRow}
use rustmail.Storage.Error.{StorageError, not_found}
use rustmail.Storage.Exec.{Result, ok, err, World, Conn, Exec}
use rustmail.Storage.Read.{
  MessageFilter, no_filter, PageStart, offset, before, list_page, search_page, count_filtered,
  search_count_filtered, cursor,
}

abbrev pub default_page_limit : ℕ
default_page_limit = 50

abbrev pub max_page_limit : ℕ
max_page_limit = 200

abbrev pub max_tags : ℕ
max_tags = 20

abbrev pub max_tag_len : ℕ
max_tag_len = 50

-- What the texts of `AppError::BadRequest` say.
pub data BadRequest : Type 0 where
  not_an_integer not_a_flag : (key : Text) → BadRequest
  too_many_tag_filters cursor_with_offset too_many_tags tag_too_long tag_malformed : BadRequest

pub data AppError : Type 0 where
  bad_request : BadRequest → AppError
  unknown_cursor timed_out : AppError
  storage : StorageError → AppError

pub data Answer {ℓ} (A : Type ℓ) : Type ℓ where
  answered : A → Answer A
  refused : AppError → Answer A

pub record ListParams : Type 0 where
  pub q : Option Text
  pub limit : Option ℤ
  pub offset : Option ℤ
  pub before : Option Text
  pub filter : MessageFilter

abbrev pub no_params : ListParams
no_params = record { q = none; limit = none; offset = none; before = none; filter = no_filter }

-- `value.parse::<i64>()`
abbrev natural : ParseInt → Option ℤ
natural (parsed n) = some (pos n)
natural _ = none

abbrev negated : ParseInt → Option ℤ
negated (parsed zero) = some (pos zero)
negated (parsed (suc n)) = some (negsuc n)
negated _ = none

unfoldable pub parse_i64 : Text → Option ℤ
unfolding parse_digits parse_unsigned
parse_i64 (c ∷ d ∷ s) =
    if c == b'-'
    then negated (parse_digits (2 ^ 63) 0 (d ∷ s))
    else natural (parse_unsigned (2 ^ 63 - 1) (c ∷ d ∷ s))
parse_i64 s = natural (parse_unsigned (2 ^ 63 - 1) s)

abbrev or_bad {ℓ} : {A : Type ℓ} → BadRequest → Option A → Answer A
or_bad why none = refused (bad_request why)
or_bad why (some a) = answered a

unfoldable pub parse_integer : Text → Text → Answer ℤ
unfolding parse_i64
parse_integer key value = or_bad (not_an_integer key) (parse_i64 value)

unfoldable pub parse_flag : Text → Text → Answer Bool
unfolding same
parse_flag key value =
    if same value (codes "true")
    then answered true
    else if same value (codes "false")
    then answered false
    else refused (bad_request (not_a_flag key))

infixl 10 ◌>>=◌
abbrev pub ◌>>=◌ {ℓ κ} : {A : Type ℓ} {B : Type κ} → Answer A → (A → Answer B) → Answer B
answered a >>= f = f a
refused e >>= f = refused e

-- One pair of the query string.
unfoldable pub parse_pair : ListParams → Text → Text → Answer ListParams
unfolding same parse_integer parse_flag
parse_pair p key value =
    if same key (codes "q")
    then answered (record p { q = some value })
    else if same key (codes "limit")
    then (do n ← parse_integer key value; answered (record p { limit = some n }))
    else if same key (codes "offset")
    then (do n ← parse_integer key value; answered (record p { offset = some n }))
    else if same key (codes "before")
    then answered (record p { before = some value })
    else if same key (codes "starred")
    then (do
      b ← parse_flag key value
      answered (record p { filter = record p.filter { starred = b } }))
    else if same key (codes "unread")
    then (do
      b ← parse_flag key value
      answered (record p { filter = record p.filter { unread = b } }))
    else if same key (codes "has_attachments")
    then (do
      b ← parse_flag key value
      answered (record p { filter = record p.filter { has_attachments = b } }))
    else if same key (codes "tag")
    then answered (record p { filter = record p.filter { tags = p.filter.tags ++ value ∷ [] } })
    else answered p

unfoldable pub parse_pairs : ListParams → List (Text × Text) → Answer ListParams
unfolding parse_pair
parse_pairs p [] = answered p
parse_pairs p ((key, value) ∷ pairs) = do p' ← parse_pair p key value; parse_pairs p' pairs

abbrev few_tags : ListParams → Answer ListParams
few_tags p =
    if ltb max_tags (length p.filter.tags)
    then refused (bad_request too_many_tag_filters)
    else answered p

unfoldable pub parse : List (Text × Text) → Answer ListParams
unfolding parse_pairs
parse pairs = do p ← parse_pairs no_params pairs; few_tags p

-- `unwrap_or(DEFAULT_PAGE_LIMIT).clamp(1, MAX_PAGE_LIMIT)`
unfoldable pub page_limit : Option ℤ → ℕ
page_limit none = default_page_limit
page_limit (some n) = min max_page_limit (max 1 (from_zero n))

pub record ListResponse : Type 0 where
  pub messages : List MessageSummary
  pub total : ℕ
  pub next_cursor : Option Text
  pub limit : ℕ

abbrev pub last_id : List MessageSummary → Option Text
last_id [] = none
last_id (m ∷ []) = some m.id
last_id (m ∷ n ∷ ms) = last_id (n ∷ ms)

-- The page, its lookahead taken off, and where the next one starts.
unfoldable pub respond : ℕ → List MessageSummary → ℕ → ListResponse
respond limit rows total = record {
  messages = take limit rows;
  total = total;
  next_cursor = if ltb limit (length rows) then last_id (take limit rows) else none;
  limit = limit;
}

module _ (is_alphanumeric : ℕ → Bool) (matches : Text → IndexRow → Bool) (w : World) where
  -- A request as it goes on with the repository.
  abbrev pub Handler {ℓ} : Type ℓ → Type ℓ
  Handler A = Conn → Answer A × Conn

  abbrev with_answer {ℓ κ} :
      {A : Type ℓ} {B : Type κ} → (A → Handler B) → Result A × Conn → Answer B × Conn
  with_answer k (ok a, c) = k a c
  with_answer k (err e, c) = (refused (storage e), c)

  abbrev cursor_error : StorageError → AppError
  cursor_error (not_found id) = unknown_cursor
  cursor_error e = storage e

  abbrev from_cursor {ℓ} :
      {A : Type ℓ} → (PageStart → Handler A) → Result ℕ × Conn → Answer A × Conn
  from_cursor k (ok n, c) = k (before n) c
  from_cursor k (err e, c) = (refused (cursor_error e), c)

  abbrev offset_of : Option ℤ → ℤ
  offset_of none = pos 0
  offset_of (some n) = pos (from_zero n)

  unfoldable pub with_start {ℓ} :
      {A : Type ℓ} → Option Text → Option ℤ → (PageStart → Handler A) → Handler A
  unfolding cursor
  with_start (some id) (some n) k c = (refused (bad_request cursor_with_offset), c)
  with_start (some id) none k c = from_cursor k (cursor w id c)
  with_start none n k c = k (offset (offset_of n)) c

  unfoldable pub rows_from :
      Option Text → MessageFilter → PageStart → ℤ → Exec (List MessageSummary)
  unfolding list_page search_page
  rows_from (some query) f start limit = search_page is_alphanumeric matches w query f start limit
  rows_from none f start limit = list_page w f start limit

  unfoldable pub total_of : Option Text → MessageFilter → Exec ℕ
  unfolding count_filtered search_count_filtered
  total_of (some query) f = search_count_filtered is_alphanumeric matches w query f
  total_of none f = count_filtered w f

  unfoldable pub serve_page : ListParams → ℕ → PageStart → Handler ListResponse
  unfolding rows_from total_of respond
  serve_page p limit start c =
      with_answer
        (λ rows c.
          with_answer (λ total c. (answered (respond limit rows total), c))
            (total_of p.q p.filter c))
        (rows_from p.q p.filter start (pos (limit + 1)) c)

  -- `list_messages`, behind the parsing of its query string.
  unfoldable pub list_messages : ListParams → Handler ListResponse
  unfolding with_start serve_page page_limit
  list_messages p c = with_start p.before p.offset (serve_page p (page_limit p.limit)) c
