-- ===== src/Storage/Delete.antt =====
-- `delete`, `delete_all`, `delete_older_than` and `trim_to_max` of
-- crates/rustmail-storage/src/repo.rs.
pub mod Purge
pub mod Oldest
pub mod Effects
pub mod One
pub mod Trim
pub mod Leaves
use mathlib.Core.Option
use rustmail.Prelude.Text.{Text, same}
use rustmail.Prelude.{
  ℕ, zero, suc, ◌==◌, Bool, true, false, not, Option, none, some, List, [], ◌∷◌, map, length, any,
  has, keep, without, first, newest_first, get_elem?, is_empty, ltb, leb, ℤ, from_zero, leb_int,
  if◌then◌else◌,
}
use rustmail.Storage.Schema.{MessageRow, IndexRow, Db, seqs}
use rustmail.Storage.Error.{StorageError, not_found}
use rustmail.Storage.Exec.{
  Result, ok, err, World, Exec, pure, raise, ◌>>=◌, ◌>>◌, statement, transaction, transaction_or,
  retry_on_lock,
}

-- `DELETE FROM messages WHERE …`, with the cascade to the tables that refer to `messages`.
abbrev pub remove_messages : (MessageRow → Bool) → Db → Db
remove_messages p d =
    let gone = seqs (keep p d.messages) in
    record {
      messages = without p d.messages;
      contents = without (λ c. has c.seq gone) d.contents;
      attachments = without (λ a. has a.message_seq gone) d.attachments;
      index = d.index;
      tags = without (λ t. has t.message_seq gone) d.tags;
    }

-- `DELETE FROM messages_fts WHERE …`
abbrev pub remove_index : (IndexRow → Bool) → Db → Db
remove_index p d = record d { index = without p d.index }

abbrev pub ids_of : List MessageRow → List Text
ids_of = map (λ m. m.summary.id)

-- With `RETURNING id`.
abbrev pub delete_where : (MessageRow → Bool) → Db → Result (List Text) × Db
delete_where p d = (ok (ids_of (keep p d.messages)), remove_messages p d)

abbrev pub delete_index_where : (Db → IndexRow → Bool) → Db → Result {0} Unit × Db
delete_index_where p d = (ok tt, remove_index (p d) d)

abbrev pub has_id : Text → MessageRow → Bool
has_id id m = same m.summary.id id

-- `rowid = (SELECT seq FROM messages WHERE id = ?1)`
abbrev pub is_at : Option ℕ → ℕ → Bool
is_at none n = false
is_at (some k) n = n == k

abbrev pub seq_of : Text → Db → Option ℕ
seq_of id d = first (seqs (keep (has_id id) d.messages))

-- `SELECT seq … ORDER BY seq DESC LIMIT 1 OFFSET max`
abbrev pub threshold_of : ℤ → Db → Option ℕ
threshold_of most d = get_elem? (newest_first (seqs d.messages)) (from_zero most)

abbrev pub up_to : ℕ → ℕ → Bool
up_to threshold n = leb n threshold

module _ (w : World) where
  unfoldable pub delete_in : Text → Exec {0} Unit
  unfolding ◌>>=◌ ◌>>◌ statement
  delete_in id = do
    statement w (delete_index_where (λ d i. is_at (seq_of id d) i.rowid))
    ids ← statement w (delete_where (has_id id))
    if is_empty ids then raise (not_found id) else pure tt

  unfoldable pub delete : Text → Exec {0} Unit
  unfolding transaction delete_in
  delete id = transaction w (delete_in id)

  abbrev pub clear : (Db → Db) → Exec {0} Unit
  clear f = statement w (λ d. (ok tt, f d))

  unfoldable pub delete_all_in : Exec ℕ
  unfolding ◌>>=◌ ◌>>◌ statement
  delete_all_in = do
    clear (λ d. record d { index = [] })
    clear (λ d. record d { contents = [] })
    clear (λ d. record d { attachments = [] })
    clear (λ d. record d { tags = [] })
    ids ← statement w (delete_where (λ m. true))
    pure (length ids)

  unfoldable pub delete_all : Exec ℕ
  unfolding transaction delete_all_in retry_on_lock
  delete_all = retry_on_lock w (transaction w delete_all_in)

  -- A read on the readers' connections.
  abbrev pub read {ℓ} : {A : Type ℓ} → (Db → A) → Exec A
  read f = statement w (λ d. (ok (f d), d))

  -- `before` is SQLite's comparison of two texts.
  module _ (before : Text → Text → Bool) where
    abbrev pub is_older : Text → MessageRow → Bool
    is_older cutoff m = before m.summary.created_at cutoff

    unfoldable pub delete_older_in : Text → Exec (List Text)
    unfolding ◌>>=◌ ◌>>◌ statement
    delete_older_in cutoff = do
      statement w
          (delete_index_where (λ d i. has i.rowid (seqs (keep (is_older cutoff) d.messages))))
      statement w (delete_where (is_older cutoff))

    unfoldable pub delete_older_than_once : Text → Exec (List Text)
    unfolding ◌>>=◌ statement transaction delete_older_in
    delete_older_than_once cutoff = do
      has_match ← read (λ d. any (is_older cutoff) d.messages)
      if has_match then transaction w (delete_older_in cutoff) else pure []

    unfoldable pub delete_older_than : Text → Exec (List Text)
    unfolding delete_older_than_once retry_on_lock
    delete_older_than cutoff = retry_on_lock w (delete_older_than_once cutoff)

  -- Without a threshold the transaction is left.
  unfoldable pub trim_below : Option ℕ → Exec (Option (List Text))
  unfolding ◌>>◌ ◌>>=◌ statement
  trim_below none = pure none
  trim_below (some threshold) = do
    statement w (delete_index_where (λ d i. up_to threshold i.rowid))
    ids ← statement w (delete_where (λ m. up_to threshold m.seq))
    pure (some ids)

  unfoldable pub trim_in : ℤ → Exec (Option (List Text))
  unfolding ◌>>=◌ statement trim_below
  trim_in most = do threshold ← read (threshold_of most); trim_below threshold

  unfoldable pub trim_to_max_once : ℤ → Exec (List Text)
  unfolding ◌>>=◌ statement transaction_or trim_in
  trim_to_max_once most = do
    count ← read (λ d. length d.messages)
    if leb_int count most then pure [] else transaction_or w [] (trim_in most)

  unfoldable pub trim_to_max : ℤ → Exec (List Text)
  unfolding trim_to_max_once retry_on_lock
  trim_to_max most = retry_on_lock w (trim_to_max_once most)
