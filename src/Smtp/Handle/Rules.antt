-- ===== src/Smtp/Handle/Rules.antt =====
-- An interface between `handle` and its invariants: what is kept by the primitive actions and by each
-- change of the transaction is kept by a round of the loop.
use rustmail.Prelude.{
  ℕ, ◌<◌, ◌≡◌, true, false, ◌||◌, Option, none, some, [], ◌∷◌, ◌++◌, length, is_empty, leb, ◌||◌,
  arith,
}
use rustmail.Prelude.Text.{Text}
use rustmail.Smtp.Command.{
  Command, hello, starttls, mail, rcpt, body, quit, rset, auth_plain, auth_login, auth, noop,
  unknown, extract_address, SizeRefusal, declared_size_refusal,
}
use rustmail.Smtp.Session.{
  SessionError, Reply, bad_sequence, starttls_ready, data_start, World, Session, Exec,
  max_recipients, modify, ◌>>=◌, ◌>>◌, reset_transaction, read_bounded_line, receive_data, write,
  Flow, next, tls_active,
}
use rustmail.Smtp.Handle.{
  is_none, upgrade_to_tls, received, handle_auth_plain, handle_auth_login, sized, mail_command,
  rcpt_command, data_command, starttls_command, hello_command, run_command, round,
}
use rustmail.Smtp.Handle.Keeps.{Post, Post-if, Keeps, Keeps-pure, Keeps-if, Keeps-bind, keeps_rules}

abbrev pub phase : World → ℕ → Exec Flow
phase w count = do write w data_start; r ← receive_data; received w count r

pub record Rules (w : World) (P : Session → Type 0) (Q : SessionError → Session → Type 0)
    : Type 0 where
  pub writes : (r : Reply) → Keeps P Q (write w r)
  pub reads : Keeps P Q read_bounded_line
  pub resets : (s : Session) → P s → P (reset_transaction s)
  pub greets : (s : Session) → P s → P (record s { greeted = true })
  pub upgrades : Keeps P Q (upgrade_to_tls w)
  pub mails :
      (s : Session) (a : Text)
      → s.greeted ≡ true
      → P s
      → P (record s { mail_from = some a; rcpt_to = [] })
  pub rcpts :
      (s : Session) (a : Text)
      → is_none s.mail_from ≡ false
      → length s.rcpt_to < max_recipients
      → P s
      → P (record s { rcpt_to = s.rcpt_to ++ a ∷ [] })
  pub phases :
      (count : ℕ) (s : Session)
      → is_none s.mail_from ≡ false
      → is_empty s.rcpt_to ≡ false
      → P s
      → Post P Q (phase w count s)

module _ {w : World} {P : Session → Type 0} {Q : SessionError → Session → Type 0}
    (rules : Rules w P Q) where
  open rules use {writes, reads, resets, greets, upgrades, mails, rcpts, phases}

  Keeps-modify : Keeps P Q (modify reset_transaction)
  Keeps-modify = record { at = λ s h. resets s h }

  Post-write : (r : Reply) (s : Session) → P s → Post P Q (write w r s)
  Post-write r s h = (writes r).at s h

  sized-Keeps :
      (line : Text) (s : Session) (o : Option SizeRefusal)
      → s.greeted ≡ true
      → P s
      → Post P Q (sized w line o s)
  unfolding sized
  sized-Keeps line s (some refusal) e h = Post-write _ s h
  sized-Keeps line s none e h = Post-write _ _ (mails s (extract_address line) e h)

  mail_command-Keeps : (line : Text) → Keeps P Q (mail_command w line)
  unfolding mail_command
  mail_command-Keeps line = record {
    at = λ s h.
        Post-if P Q _ _ s.greeted
          (λ e. sized-Keeps line s (declared_size_refusal line s.max_message_size) e h)
          (λ _. Post-write _ s h);
  }

  rcpt_command-Keeps : (line : Text) → Keeps P Q (rcpt_command w line)
  unfolding rcpt_command
  rcpt_command-Keeps line = record {
    at = λ s h.
        Post-if P Q _ _ (is_none s.mail_from) (λ _. Post-write _ s h)
          (λ sender.
            Post-if P Q _ _ (leb max_recipients (length s.rcpt_to)) (λ _. Post-write _ s h)
              (λ room. Post-write _ _ (rcpts s (extract_address line) sender (ground arith) h)));
  }

  data_command-Keeps : (count : ℕ) → Keeps P Q (data_command w count)
  unfolding data_command
  data_command-Keeps count = record {
    at = λ s h.
        Post-if P Q _ _ (is_none s.mail_from || is_empty s.rcpt_to)
          (λ _. (Keeps-bind _ _ (writes bad_sequence) (λ _. Keeps-pure (next count))).at s h)
          (λ e. phases count s (ground arith) (ground arith) h);
  }

  starttls_command-Keeps : Keeps P Q (starttls_command w)
  unfolding starttls_command
  starttls_command-Keeps = record {
    at = λ s h.
        Post-if P Q _ _ s.tls_config
          (λ _.
            Post-if P Q _ _ (tls_active s) (λ _. Post-write _ s h)
              (λ _. (Keeps-bind _ _ (writes starttls_ready) (λ _. upgrades)).at s h))
          (λ _. Post-write _ s h);
  }

  hello_command-Keeps : Keeps P Q (hello_command w)
  unfolding hello_command
  hello_command-Keeps = record { at = λ s h. (writes _).at _ (resets _ (greets s h)) }

  handle_auth_plain-Keeps : (line : Text) → Keeps P Q (handle_auth_plain w line)
  unfolding handle_auth_plain
  handle_auth_plain-Keeps line =
      Keeps-if _ _ _ (writes _)
        (Keeps-bind _ _ (writes _) (λ _. Keeps-bind _ _ reads (λ _. writes _)))

  handle_auth_login-Keeps : Keeps P Q (handle_auth_login w)
  unfolding handle_auth_login
  handle_auth_login-Keeps = Keeps-bind _ _ (writes _) (λ _.
      Keeps-bind _ _ reads
        (λ _. Keeps-bind _ _ (writes _) (λ _. Keeps-bind _ _ reads (λ _. writes _))))

  run_command-Keeps :
      (count : ℕ) (line : Text) (c : Command) → Keeps P Q (run_command w count line c)
  unfolding run_command
  run_command-Keeps count line hello = search (keeps_rules, hello_command-Keeps)
  run_command-Keeps count line starttls = search (keeps_rules, starttls_command-Keeps)
  run_command-Keeps count line mail = search (keeps_rules, mail_command-Keeps)
  run_command-Keeps count line rcpt = search (keeps_rules, rcpt_command-Keeps)
  run_command-Keeps count line body = data_command-Keeps count
  run_command-Keeps count line quit = search (keeps_rules, writes)
  run_command-Keeps count line rset = search (keeps_rules, writes, Keeps-modify)
  run_command-Keeps count line auth_plain = search (keeps_rules, handle_auth_plain-Keeps)
  run_command-Keeps count line auth_login = search (keeps_rules, handle_auth_login-Keeps)
  run_command-Keeps count line auth = search (keeps_rules, writes)
  run_command-Keeps count line noop = search (keeps_rules, writes)
  run_command-Keeps count line unknown = search (keeps_rules, writes)

  pub round-Keeps : (count : ℕ) (line : Option Text) → Keeps P Q (round w count line)
  unfolding round
  round-Keeps count none = search keeps_rules
  round-Keeps count (some text) = search (keeps_rules, writes, run_command-Keeps)
