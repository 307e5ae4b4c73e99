-- ===== src/Storage/Exec.antt =====
-- Statements, transactions and `retry_on_lock` of crates/rustmail-storage/src/repo.rs, as actions
-- on a database that may fail at any moment.
pub mod Holds
pub mod Retries
use rustmail.Prelude.{
  ℕ, zero, suc, ◌+◌, Bool, true, false, ◌&&◌, ◌||◌, not, Option, none, some, ltb, ◌==◌,
  if◌then◌else◌,
}
use rustmail.Prelude.Text.{Text}
use rustmail.Storage.Schema.{Db}
use rustmail.Storage.Error.{StorageError, database, other, SqlxError, is_retryable_lock}

pub data Result {ℓ} (A : Type ℓ) : Type ℓ where
  ok : A → Result A
  err : StorageError → Result A

-- What the environment decides: whether the request made at a moment fails, and how;
-- the identifier that is minted and the clock that is read; and whether, at the second moment, the
-- budget of a write that began at the first is spent.
pub record World : Type 0 where
  pub fault : ℕ → Option SqlxError
  pub ulid : ℕ → Text
  pub now : ℕ → Text
  pub late : ℕ → ℕ → Bool

-- A moment passes with each request.
pub record Conn : Type 0 where
  pub db : Db
  pub moment : ℕ

abbrev pub Exec {ℓ} : Type ℓ → Type ℓ
Exec A = Conn → Result A × Conn

abbrev pub tick : Conn → Conn
tick c = record c { moment = suc c.moment }

module _ {ℓ} {A : Type ℓ} where
  abbrev pub pure : A → Exec A
  pure a c = (ok a, c)

  abbrev pub raise : StorageError → Exec A
  raise e c = (err e, c)

  abbrev pub lift : Result A → Exec A
  lift r c = (r, c)

module _ {ℓ κ} {A : Type ℓ} {B : Type κ} where
  abbrev continue : (A → Exec B) → Result A × Conn → Result B × Conn
  continue f (ok a, c) = f a c
  continue f (err e, c) = (err e, c)

  infixl 10 ◌>>=◌ ◌>>◌
  unfoldable pub ◌>>=◌ : Exec A → (A → Exec B) → Exec B
  (m >>= f) c = continue f (m c)

  unfoldable pub ◌>>◌ : Exec A → Exec B → Exec B
  unfolding ◌>>=◌
  m >> n = m >>= λ _. n

abbrev pub moment : Exec ℕ
moment c = (ok c.moment, c)

module _ {ℓ} {A : Type ℓ} (w : World) where
  -- A statement that fails changes nothing.
  abbrev run_at : Option SqlxError → (Db → Result A × Db) → Exec A
  run_at (some error) f c = (err (database error), tick c)
  run_at none f c = let (r, d) = f c.db in (r, record { db = d; moment = suc c.moment })

  unfoldable pub statement : (Db → Result A × Db) → Exec A
  statement f c = run_at (w.fault c.moment) f c

module _ (w : World) where
  -- `begin` and `commit`, which change no row themselves.
  unfoldable pub begin : Exec {0} Unit
  unfolding statement
  begin = statement w (λ d. (ok tt, d))

  unfoldable pub commit : Exec {0} Unit
  unfolding statement
  commit = statement w (λ d. (ok tt, d))

module _ {ℓ} {A : Type ℓ} (w : World) where
  -- A transaction that is dropped before it commits is rolled back.
  abbrev rolled_back : Db → Result A × Conn → Result A × Conn
  rolled_back d (ok a, c) = (ok a, c)
  rolled_back d (err e, c) = (err e, record c { db = d })

  unfoldable pub transaction : Exec A → Exec A
  unfolding begin commit ◌>>=◌ ◌>>◌
  transaction body c = rolled_back c.db ((begin w >> (body >>= λ a. commit w >> pure a)) c)

module _ {ℓ} {A : Type ℓ} (w : World) where
  -- Leaving a transaction early, with an answer, rolls it back too.
  abbrev finish : Db → A → Option A → Exec A
  finish d a none c = (ok a, record c { db = d })
  finish d a (some b) c = (commit w >> pure b) c

  unfoldable pub transaction_or : A → Exec (Option A) → Exec A
  unfolding begin commit ◌>>=◌ ◌>>◌
  transaction_or a body c = rolled_back w c.db ((begin w >> (body >>= finish c.db a)) c)

abbrev pub write_attempts : ℕ
write_attempts = 5

module _ {ℓ} {A : Type ℓ} (w : World) where
  -- `again` is the next round of the loop, which a sleep comes before.
  abbrev after_attempt : Exec A → ℕ → ℕ → Result A × Conn → Result A × Conn
  after_attempt again start attempt (ok a, c) = (ok a, c)
  after_attempt again start attempt (err e, c) =
      if is_retryable_lock e && ltb (attempt + 1) write_attempts && not (w.late start c.moment)
      then again (tick c)
      else (err e, c)

  -- The loop, with the number of rounds that it may still take; a loop that had none left would end in
  -- an error of its own.
  unfoldable pub retry_loop : ℕ → Exec A → ℕ → ℕ → Exec A
  unfolding is_retryable_lock
  retry_loop zero op start attempt c = (err (database other), c)
  retry_loop (suc fuel) op start attempt c =
      after_attempt (retry_loop fuel op start (attempt + 1)) start attempt (op c)

  unfoldable pub retry_on_lock : Exec A → Exec A
  unfolding retry_loop
  retry_on_lock op c = retry_loop write_attempts op c.moment 0 c
