-- ===== src/Storage/Exec/Holds.antt =====
-- What an action on the database leads to, and what a write that commits or fails leaves behind.
use rustmail.Prelude.{
  ℕ, zero, suc, ◌+◌, ◌≡◌, refl, ◌&&◌, not, Option, none, some, Option-cases, Bool-cases, inl, inr,
  ltb,
}
use rustmail.Storage.Schema.{Db}
use rustmail.Storage.Error.{other, StorageError, database, SqlxError, is_retryable_lock}
use rustmail.Storage.Exec.{
  Result, ok, err, World, Conn, Exec, tick, pure, continue, ◌>>=◌, ◌>>◌, statement, begin, commit,
  rolled_back, transaction, transaction_or, finish, write_attempts, after_attempt, retry_loop,
  retry_on_lock,
}

module _ {ℓ κ} {A : Type ℓ} where
  -- What is so of a result and of where it leaves the connection.
  abbrev pub Holds : (A → Conn → Type κ) → (StorageError → Conn → Type κ) → Result A × Conn → Type κ
  Holds Q E (ok a, c) = Q a c
  Holds Q E (err e, c) = E e c

-- On success, `P` relates the database before, the answer and the database after; a failure leaves
-- the database as it was.
module _ {ℓ} {A : Type ℓ} where
  abbrev pub Ends : (Db → A → Db → Type 0) → Db → Result A × Conn → Type 0
  Ends P d r = Holds (λ a c. P d a c.db) (λ e c. c.db ≡ d) r

  abbrev pub Effect : (Db → A → Db → Type 0) → Exec A → Type 0
  Effect P m = (c : Conn) → Ends P c.db (m c)

  -- What is so if the action succeeds.
  abbrev pub Post : (A → Conn → Type 0) → Result A × Conn → Type 0
  Post Q r = Holds Q (λ e c. Unit) r

module _ {ℓ} {A : Type ℓ} where
  pub Post-map :
      (Q R : A → Conn → Type 0) (r : Result A × Conn)
      → ((a : A) (c : Conn) → Q a c → R a c)
      → Post Q r
      → Post R r
  Post-map Q R (ok a, c) f h = f a c h
  Post-map Q R (err e, c) f h = tt

module _ {ℓ} {A : Type ℓ} where
  pub Ends-map :
      (P Q : Db → A → Db → Type 0) (d : Db) (r : Result A × Conn)
      → ((a : A) (d' : Db) → P d a d' → Q d a d')
      → Ends P d r
      → Ends Q d r
  Ends-map P Q d (ok a, c) f h = f a c.db h
  Ends-map P Q d (err e, c) f h = h

module _ {ℓ κ μ} {A : Type ℓ} {B : Type κ} where
  continue-Holds :
      (Q : B → Conn → Type μ) (E : StorageError → Conn → Type μ) (f : A → Exec B)
      (r : Result A × Conn)
      → Holds (λ a c. Holds Q E (f a c)) E r
      → Holds Q E (continue f r)
  continue-Holds Q E f (ok a, c) h = h
  continue-Holds Q E f (err e, c) h = h

  pub bind-Holds :
      (Q : B → Conn → Type μ) (E : StorageError → Conn → Type μ) (m : Exec A) (f : A → Exec B)
      (c : Conn)
      → Holds (λ a c. Holds Q E (f a c)) E (m c)
      → Holds Q E ((m >>= f) c)
  unfolding ◌>>=◌
  bind-Holds Q E m f c h = continue-Holds Q E f (m c) h

module _ {ℓ κ} {A : Type ℓ} {B : Type κ} where
  pub bind-Post :
      (Q : A → Conn → Type 0) (R : B → Conn → Type 0) (m : Exec A) (f : A → Exec B) (c : Conn)
      → Post Q (m c)
      → ((a : A) (c1 : Conn) → Q a c1 → Post R (f a c1))
      → Post R ((m >>= f) c)
  bind-Post Q R m f c h go =
      bind-Holds R (λ e c. Unit) m f c (Post-map Q (λ a c1. Post R (f a c1)) (m c) go h)

module _ {ℓ κ} {A : Type ℓ} (w : World) (Q : A → Conn → Type κ)
    (E : StorageError → Conn → Type κ) where
  abbrev pub Does : ℕ → Result A × Db → Type κ
  Does n (r, d) = Holds Q E (r, record { db = d; moment = n })

  pub statement-Holds :
      (f : Db → Result A × Db) (c : Conn)
      → ((error : SqlxError) → E (database error) (tick c))
      → Does (suc c.moment) (f c.db)
      → Holds Q E (statement w f c)
  unfolding statement
  statement-Holds f c failing h = elim (Option-cases (w.fault c.moment)) [
    | inl e ↦ rw e h
    | inr (error, e) ↦ rw e (failing error)
  ]

-- Statements that no constraint refuses.
module _ {ℓ} {A : Type ℓ} (w : World) (a : Db → A) (g : Db → Db) where
  abbrev pub runs : Exec A
  runs = statement w (λ d. (ok (a d), g d))

  abbrev pub after : Conn → Conn
  after c = record { db = g c.db; moment = suc c.moment }

  pub last-Post : (Q : A → Conn → Type 0) (c : Conn) → Q (a c.db) (after c) → Post Q (runs c)
  last-Post Q c h = statement-Holds w Q (λ e c. Unit) (λ d. (ok (a d), g d)) c (λ error. tt) h

  pub pass-Holds {κ} :
      {B : Type κ} (Q : B → Conn → Type 0) (E : StorageError → Conn → Type 0) (k : A → Exec B)
      (c : Conn)
      → ((error : SqlxError) → E (database error) (tick c))
      → Holds Q E (k (a c.db) (after c))
      → Holds Q E ((runs >>= k) c)
  pass-Holds Q E k c failing h =
      bind-Holds Q E runs k c
        (statement-Holds w (λ a c'. Holds Q E (k a c')) E (λ d. (ok (a d), g d)) c failing h)

  pub pass-Post {κ} :
      {B : Type κ} (Q : B → Conn → Type 0) (k : A → Exec B) (c : Conn)
      → Post Q (k (a c.db) (after c))
      → Post Q ((runs >>= k) c)
  pass-Post Q k c h = pass-Holds Q (λ e c. Unit) k c (λ error. tt) h

module _ {ℓ} {A : Type ℓ} (w : World) (P : Db → A → Db → Type 0) where
  committed-Ends :
      (d : Db) (r : Result A × Conn)
      → Post (λ a c. P d a c.db) r
      → Ends P d (rolled_back w d (continue (λ a. commit w >> pure a) r))
  unfolding commit statement ◌>>◌ ◌>>=◌
  committed-Ends d (err e, c) h = refl
  committed-Ends d (ok a, c) h = elim (Option-cases (w.fault c.moment)) [
    | inl e ↦ rw e h
    | inr (error, e) ↦ rw e refl
  ]

  pub transaction-Effect :
      (body : Exec A)
      → ((c : Conn) → Post (λ a c'. P c.db a c'.db) (body c))
      → Effect P (transaction w body)
  unfolding transaction begin statement ◌>>◌ ◌>>=◌
  transaction-Effect body h c = elim (Option-cases (w.fault c.moment)) [
    | inl e ↦ rw e (committed-Ends c.db (body (tick c)) (h (tick c)))
    | inr (error, e) ↦ rw e refl
  ]

  abbrev pub EndsOr : A → Db → Option A → Conn → Type 0
  EndsOr a d none c = P d a d
  EndsOr a d (some b) c = P d b c.db

  finished-Ends :
      (d : Db) (a : A) (r : Result (Option A) × Conn)
      → Post (EndsOr a d) r
      → Ends P d (rolled_back w d (continue (finish w d a) r))
  unfolding commit statement ◌>>◌ ◌>>=◌
  finished-Ends d a (err e, c) h = refl
  finished-Ends d a (ok none, c) h = h
  finished-Ends d a (ok (some b), c) h = elim (Option-cases (w.fault c.moment)) [
    | inl e ↦ rw e h
    | inr (error, e) ↦ rw e refl
  ]

  pub transaction_or-Effect :
      (a : A) (body : Exec (Option A))
      → ((c : Conn) → Post (EndsOr a c.db) (body c))
      → Effect P (transaction_or w a body)
  unfolding transaction_or begin statement ◌>>◌ ◌>>=◌
  transaction_or-Effect a body h c = elim (Option-cases (w.fault c.moment)) [
    | inl e ↦ rw e (finished-Ends c.db a (body (tick c)) (h (tick c)))
    | inr (error, e) ↦ rw e refl
  ]

  after_attempt-Ends :
      (d : Db) (again : Exec A) (start attempt : ℕ) (r : Result A × Conn)
      → ((c : Conn) → c.db ≡ d → Ends P d (again c))
      → Ends P d r
      → Ends P d (after_attempt w again start attempt r)
  after_attempt-Ends d again start attempt (ok a, c) go_on h = h
  after_attempt-Ends d again start attempt (err e, c) go_on h =
      elim (Bool-cases
        (is_retryable_lock e && ltb (attempt + 1) write_attempts && not (w.late start c.moment))) [
          | inl e_y ↦ rw e_y (go_on (tick c) h)
          | inr e_n ↦ rw e_n h
        ]

  retry_loop-Ends :
      (fuel : ℕ) (op : Exec A) (start attempt : ℕ)
      → Effect P op
      → (d : Db) (c : Conn) → c.db ≡ d
      → Ends P d (retry_loop w fuel op start attempt c)
  unfolding retry_loop
  retry_loop-Ends zero op start attempt h d c e = e
  retry_loop-Ends (suc fuel) op start attempt h d c e =
      after_attempt-Ends d _ start attempt (op c) (retry_loop-Ends fuel op start (attempt + 1) h d)
        (rw (← e) (h c))

  -- A retried write does what one attempt does, or leaves the database as it was.
  pub retry_on_lock-Effect : (op : Exec A) → Effect P op → Effect P (retry_on_lock w op)
  unfolding retry_on_lock
  retry_on_lock-Effect op h c = retry_loop-Ends write_attempts op c.moment 0 h c.db c refl

  pub write-Effect :
      (body : Exec A)
      → ((c : Conn) → Post (λ a c'. P c.db a c'.db) (body c))
      → Effect P (retry_on_lock w (transaction w body))
  write-Effect body h = retry_on_lock-Effect (transaction w body) (transaction-Effect body h)

-- With what is so of an error: SQLite's, or one that the body gives.
module _ {ℓ} {A : Type ℓ} (w : World) (P : Db → A → Db → Type 0) (E : StorageError → Type 0) where
  abbrev pub EndsWith : Db → Result A × Conn → Type 0
  EndsWith d r = Holds (λ a c. P d a c.db) (λ e c. (c.db ≡ d) × E e) r

  committed-EndsWith :
      ((error : SqlxError) → E (database error))
      → (d : Db) (r : Result A × Conn) → Holds (λ a c. P d a c.db) (λ e c. E e) r
      → EndsWith d (rolled_back w d (continue (λ a. commit w >> pure a) r))
  unfolding commit statement ◌>>◌ ◌>>=◌
  committed-EndsWith failing d (err e, c) h = (refl, h)
  committed-EndsWith failing d (ok a, c) h = elim (Option-cases (w.fault c.moment)) [
    | inl e ↦ rw e h
    | inr (error, e) ↦ rw e (refl, failing error)
  ]

  pub transaction-EndsWith :
      (body : Exec A)
      → ((error : SqlxError) → E (database error))
      → (c : Conn) → Holds (λ a c'. P c.db a c'.db) (λ e c'. E e) (body (tick c))
      → EndsWith c.db (transaction w body c)
  unfolding transaction begin statement ◌>>◌ ◌>>=◌
  transaction-EndsWith body failing c h = elim (Option-cases (w.fault c.moment)) [
    | inl e ↦ rw e (committed-EndsWith failing c.db (body (tick c)) h)
    | inr (error, e) ↦ rw e (refl, failing error)
  ]

  after_attempt-EndsWith :
      (d : Db) (again : Exec A) (start attempt : ℕ) (r : Result A × Conn)
      → ((c : Conn) → c.db ≡ d → EndsWith d (again c))
      → EndsWith d r
      → EndsWith d (after_attempt w again start attempt r)
  after_attempt-EndsWith d again start attempt (ok a, c) go_on h = h
  after_attempt-EndsWith d again start attempt (err e, c) go_on h =
      elim (Bool-cases
        (is_retryable_lock e && ltb (attempt + 1) write_attempts && not (w.late start c.moment))) [
          | inl e_y ↦ rw e_y (go_on (tick c) h.0)
          | inr e_n ↦ rw e_n h
        ]

  retry_loop-EndsWith :
      (fuel : ℕ) (op : Exec A) (start attempt : ℕ)
      → ((error : SqlxError) → E (database error))
      → ((c : Conn) → EndsWith c.db (op c))
      → (d : Db) (c : Conn) → c.db ≡ d
      → EndsWith d (retry_loop w fuel op start attempt c)
  unfolding retry_loop
  retry_loop-EndsWith zero op start attempt failing h d c e = (e, failing other)
  retry_loop-EndsWith (suc fuel) op start attempt failing h d c e =
      after_attempt-EndsWith d (retry_loop w fuel op start (attempt + 1)) start attempt (op c)
        (retry_loop-EndsWith fuel op start (attempt + 1) failing h d) (rw (← e) (h c))

  pub retry_on_lock-EndsWith :
      (op : Exec A)
      → ((error : SqlxError) → E (database error))
      → ((c : Conn) → EndsWith c.db (op c))
      → (c : Conn) → EndsWith c.db (retry_on_lock w op c)
  unfolding retry_on_lock
  retry_on_lock-EndsWith op failing h c =
      retry_loop-EndsWith write_attempts op c.moment 0 failing h c.db c refl
