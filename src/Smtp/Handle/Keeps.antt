-- ===== src/Smtp/Handle/Keeps.antt =====
-- What a session keeps while it runs: rules for the actions of `handle`, whatever `P` is kept and
-- whatever `Q` is left behind by an error.
use rustmail.Prelude.{
  ◌≡◌, ◌≢◌, refl, Bool, true, false, not, Option, none, some, [], ◌∷◌, ◌++◌, is_empty,
  if◌then◌else◌,
}
use rustmail.Smtp.Stream.{Input}
use rustmail.Smtp.Session.{
  SessionError, spent, Result, ok, err, Reply, replied, WriteResult, written, write_failed,
  write_stalled, Handshake, secured, handshake_failed, handshake_stalled, SmtpStream, plain, tls,
  Session, Exec, pure, fail, continue, ◌>>=◌, reset_after_starttls, write_via,
}
use rustmail.Smtp.Handle.{handshake_outcome, upgrade_via}

abbrev pub Post :
    {A : Type 0}
    → (Session → Type 0)
    → (SessionError → Session → Type 0)
    → Result A × Session
    → Type 0
Post P Q (ok a, s) = P s
Post P Q (err e, s) = Q e s

pub Post-if :
    {A : Type 0} (P : Session → Type 0) (Q : SessionError → Session → Type 0)
    (x y : Result A × Session) (b : Bool)
    → (b ≡ true → Post P Q x)
    → (b ≡ false → Post P Q y)
    → Post P Q (if b then x else y)
Post-if P Q x y true h k = h refl
Post-if P Q x y false h k = k refl

pub record Keeps {A : Type 0} (P : Session → Type 0) (Q : SessionError → Session → Type 0)
    (m : Exec A) : Type 0 where
  pub at : (s : Session) → P s → Post P Q (m s)

module _ {P : Session → Type 0} {Q : SessionError → Session → Type 0} {A : Type 0} where
  pub Keeps-pure : (a : A) → Keeps P Q (pure a)
  Keeps-pure a = record { at = λ s h. h }

  pub Keeps-fail : (e : SessionError) → ((s : Session) → P s → Q e s) → Keeps P Q (fail {A = A} e)
  Keeps-fail e h = record { at = h }

  pub Keeps-if :
      (b : Bool) (m n : Exec A) → Keeps P Q m → Keeps P Q n → Keeps P Q (if b then m else n)
  Keeps-if true m n h k = h
  Keeps-if false m n h k = k

-- A step that establishes `M`, and a rest that goes on from `M`.
module _ (M P : Session → Type 0) (Q : SessionError → Session → Type 0) {A B : Type 0} where
  Post-continue :
      (r : Result A × Session) (f : A → Exec B)
      → Post M Q r
      → ((a : A) (s : Session) → M s → Post P Q (f a s))
      → Post P Q (continue r.0 f r.1)
  Post-continue (ok a, s) f h k = k a s h
  Post-continue (err e, s) f h k = h

  pub Post-seq :
      (m : Exec A) (f : A → Exec B) (s : Session)
      → Post M Q (m s)
      → ((a : A) (s' : Session) → M s' → Post P Q (f a s'))
      → Post P Q ((m >>= f) s)
  unfolding ◌>>=◌
  Post-seq m f s h k = Post-continue (m s) f h k

module _ {P : Session → Type 0} {Q : SessionError → Session → Type 0} {A B : Type 0} where
  pub Keeps-bind :
      (m : Exec A) (f : A → Exec B)
      → Keeps P Q m
      → ((a : A) → Keeps P Q (f a))
      → Keeps P Q (m >>= f)
  Keeps-bind m f h k = record { at = λ s p. Post-seq P P Q m f s (h.at s p) (λ a. (k a).at) }

pub ruleset keeps_rules = (Keeps-pure, Keeps-if, Keeps-bind)

-- A write either adds its reply to the log or fails with the state as it was.
pub Post-write_via :
    (P : Session → Type 0) (Q : SessionError → Session → Type 0) (o : Option SmtpStream)
    (result : WriteResult) (r : Reply) (s : Session)
    → P (record s { log = s.log ++ replied r ∷ [] })
    → ((e : SessionError) → e ≢ spent → Q e s)
    → Post P Q (write_via o result r s)
unfolding write_via
Post-write_via P Q none result r s h k = k _ (λ e. cc)
Post-write_via P Q (some st) written r s h k = h
Post-write_via P Q (some st) write_failed r s h k = k _ (λ e. cc)
Post-write_via P Q (some st) write_stalled r s h k = k _ (λ e. cc)

pub Post-handshake :
    (P : Session → Type 0) (Q : SessionError → Session → Type 0) (h : Handshake) (s : Session)
    → ((i : Input) → h ≡ secured i → P (reset_after_starttls (record s { stream = some (tls i) })))
    → ((e : SessionError) → e ≢ spent → Q e (record s { stream = none }))
    → Post P Q (handshake_outcome h s)
unfolding handshake_outcome
Post-handshake P Q (secured i) s h k = h i refl
Post-handshake P Q handshake_failed s h k = k _ (λ e. cc)
Post-handshake P Q handshake_stalled s h k = k _ (λ e. cc)

pub Post-upgrade_via :
    (P : Session → Type 0) (Q : SessionError → Session → Type 0) (h : Handshake)
    (o : Option SmtpStream) (s : Session)
    → ((p i : Input)
        → o ≡ some (plain p)
        → h ≡ secured i
        → P (reset_after_starttls (record s { stream = some (tls i) })))
    → ((e : SessionError) → e ≢ spent → Q e s)
    → ((e : SessionError) → e ≢ spent → Q e (record s { stream = none }))
    → Post P Q (upgrade_via h o s)
unfolding upgrade_via
Post-upgrade_via P Q h none s up k n = k _ (λ e. cc)
Post-upgrade_via P Q h (some (plain i)) s up k n =
    Post-if P Q _ _ (not (is_empty i.buffer)) (λ _. k _ (λ e. cc))
      (λ _.
        Post-if P Q _ _ (not s.tls_config) (λ _. k _ (λ e. cc))
          (λ _. Post-handshake P Q h s (λ j e. up i j refl e) n))
Post-upgrade_via P Q h (some (tls i)) s up k n =
    Post-if P Q _ _ (not (is_empty i.buffer)) (λ _. k _ (λ e. cc))
      (λ _. Post-if P Q _ _ (not s.tls_config) (λ _. k _ (λ e. cc)) (λ _. n _ (λ e. cc)))
