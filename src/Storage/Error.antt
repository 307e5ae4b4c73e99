-- ===== src/Storage/Error.antt =====
-- crates/rustmail-storage/src/error.rs: the errors of the storage layer and what they say of it.
use rustmail.Prelude.Text.{Text}
use rustmail.Prelude.{ℕ, ◌%◌, Bool, true, false, ◌||◌, Option, none, some, ℤ, ◌==◌}

-- `sqlx::Error`: one with the result code that SQLite gave, the variants that `is_store_wide`
-- names, and any other.
pub data SqlxError : Type 0 where
  code : ℕ → SqlxError
  configuration io tls protocol pool_timed_out pool_closed worker_crashed other : SqlxError

-- What `ContentCorrupt` gives as its reason.
pub data Damage : Type 0 where
  negative_size no_content_size unreadable_header undecodable : Damage
  declares wrong_length : ℕ → Damage

pub data StorageError : Type 0 where
  database : SqlxError → StorageError
  not_found : Text → StorageError
  attachment_corrupt :
      (message_id attachment_id : Text) (transfer_encoding expected_size actual_size : Option ℤ)
      → StorageError
  content_corrupt : (message_id : Text) → Damage → StorageError
  compress : StorageError

-- The primary code is the lowest byte.
unfoldable pub sqlite_primary_code : StorageError → Option ℕ
sqlite_primary_code (database (code n)) = some (n % 256)
sqlite_primary_code _ = none

-- SQLITE_BUSY, SQLITE_LOCKED
abbrev pub is_lock : ℕ → Bool
is_lock n = n == 5 || n == 6

-- SQLITE_NOMEM, SQLITE_READONLY, SQLITE_IOERR, SQLITE_CORRUPT, SQLITE_FULL, SQLITE_CANTOPEN and
-- SQLITE_NOTADB too
abbrev pub is_wide : ℕ → Bool
is_wide n = is_lock n || n == 7 || n == 8 || n == 10 || n == 11 || n == 13 || n == 14 || n == 26

abbrev pub is_some_and : (ℕ → Bool) → Option ℕ → Bool
is_some_and f none = false
is_some_and f (some n) = f n

unfoldable pub is_retryable_lock : StorageError → Bool
unfolding sqlite_primary_code
is_retryable_lock e = is_some_and is_lock (sqlite_primary_code e)

unfoldable pub is_store_wide : StorageError → Bool
unfolding sqlite_primary_code
is_store_wide (database configuration) = true
is_store_wide (database io) = true
is_store_wide (database tls) = true
is_store_wide (database protocol) = true
is_store_wide (database pool_timed_out) = true
is_store_wide (database pool_closed) = true
is_store_wide (database worker_crashed) = true
is_store_wide e = is_some_and is_wide (sqlite_primary_code e)
