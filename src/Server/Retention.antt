-- ===== src/Server/Retention.antt =====
-- `run_retention_tick` of crates/rustmail-server/src/main.rs over the repository.
pub mod Accounts
use rustmail.Prelude.Text.{Text}
use rustmail.Prelude.{
  ℕ, zero, suc, Bool, true, false, ◌&&◌, List, [], ◌∷◌, ◌++◌, map, ℤ, pos, negsuc, ◌==◌,
  if◌then◌else◌,
}
use rustmail.Storage.Exec.{Result, ok, err, World, Conn}
use rustmail.Storage.Delete.{delete_older_than, trim_to_max}
use rustmail.Api.Changes.{WsEvent, message_delete}

-- What a sweep broadcasts, and the database behind it. A failure is logged.
pub record Sweep : Type 0 where
  pub events : List WsEvent
  pub conn : Conn

abbrev pub swept : Result (List Text) × Conn → Sweep
swept (ok ids, c) = record { events = map message_delete ids; conn = c }
swept (err e, c) = record { events = []; conn = c }

abbrev pub is_zero : ℤ → Bool
is_zero (pos zero) = true
is_zero _ = false

-- `before` compares texts as SQLite does; `cutoff` is the time so many hours ago, as it is stored.
-- The space that a sweep gives back afterwards holds no rows.
module _ (w : World) (before : Text → Text → Bool) (cutoff : ℕ → Text) where
  unfoldable pub purge_old : ℕ → Conn → Sweep
  unfolding delete_older_than
  purge_old zero c = record { events = []; conn = c }
  purge_old (suc hours) c = swept (delete_older_than w before (cutoff (suc hours)) c)

  unfoldable pub trim : ℤ → Conn → Sweep
  unfolding trim_to_max
  trim (pos (suc most)) c = swept (trim_to_max w (pos (suc most)) c)
  trim _ c = record { events = []; conn = c }

  abbrev pub and_then : Sweep → (Conn → Sweep) → Sweep
  and_then s f = let t = f s.conn in record { events = s.events ++ t.events; conn = t.conn }

  unfoldable pub run_retention_tick : ℕ → ℤ → Conn → Sweep
  unfolding purge_old trim
  run_retention_tick retention_hours max_messages c =
      if retention_hours == 0 && is_zero max_messages
      then record { events = []; conn = c }
      else and_then (purge_old retention_hours c) (trim max_messages)
