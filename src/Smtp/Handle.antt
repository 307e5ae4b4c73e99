-- ===== src/Smtp/Handle.antt =====
-- `Session::handle` of crates/rustmail-smtp/src/session.rs, with what it calls that writes.
pub mod Keeps
pub mod Log
pub mod Rules
pub mod Safety
pub mod Termination
use rustmail.Prelude.{
  ℕ, zero, suc, ◌+◌, Bool, true, false, not, ◌||◌, Option, none, some, [], ◌∷◌, ◌++◌, length,
  is_empty, ltb, leb, if◌then◌else◌,
}
use rustmail.Prelude.Text.{Text, trim, to_ascii_uppercase}
use rustmail.Smtp.Stream.Chunks.{whole}
use rustmail.Smtp.Data.{Received, message, gone, refused, lost, pending, out_of_fuel}
use rustmail.Smtp.Command.{
  Command, hello, starttls, mail, rcpt, body, quit, rset, auth_plain, auth_login, auth, noop,
  unknown, classify, extract_address, SizeRefusal, declared_size_refusal, has_initial_response,
}
use rustmail.Smtp.Session.{
  io, tls_upgrade, timeout, stream_closed, spent, ok, err, greeting, accepted, data_start, bye,
  reset, unknown_cmd, bad_sequence, starttls_ready, tls_unavailable, too_many_recipients,
  too_many_commands, message_too_big, auth_ok, auth_continue, auth_username, auth_password,
  auth_unrecognized, size_refused, ReceivedMessage, Verdict, handed, Handshake, secured,
  handshake_failed, handshake_stalled, World, SmtpStream, plain, tls, Session, max_recipients,
  max_commands_per_transaction, Exec, pure, fail, modify, ◌>>=◌, ◌>>◌, input_of, tls_active,
  reset_transaction, reset_after_starttls, ehlo_response, read_bounded_line, receive_data, envelope,
  Flow, next, stop, answer, write,
}

abbrev pub is_none {ℓ} : {A : Type ℓ} → Option A → Bool
is_none none = true
is_none (some a) = false

-- The plain stream is taken out of the session before the handshake.
unfoldable pub handshake_outcome : Handshake → Exec (Unit {0})
unfolding reset_after_starttls
handshake_outcome (secured i) s = (ok tt, reset_after_starttls (record s { stream = some (tls i) }))
handshake_outcome handshake_failed s = (err tls_upgrade, record s { stream = none })
handshake_outcome handshake_stalled s = (err timeout, record s { stream = none })

-- Bytes that arrived with STARTTLS, ahead of the handshake, end the session.
unfoldable pub upgrade_via : Handshake → Option SmtpStream → Exec (Unit {0})
unfolding handshake_outcome
upgrade_via h none s = (err stream_closed, s)
upgrade_via h (some (plain i)) s =
    if not (is_empty i.buffer)
    then (err tls_upgrade, s)
    else if not s.tls_config
    then (err tls_upgrade, s)
    else handshake_outcome h s
upgrade_via h (some (tls i)) s =
    if not (is_empty i.buffer)
    then (err tls_upgrade, s)
    else if not s.tls_config
    then (err tls_upgrade, s)
    else (err tls_upgrade, record s { stream = none })

-- Every round takes a byte at least, from the stream or from the one that a handshake puts in its
-- place.
abbrev pub bytes_in : Option SmtpStream → ℕ
bytes_in none = 0
bytes_in (some st) = length (whole (input_of st))

abbrev pub handshake_bytes : Handshake → ℕ
handshake_bytes (secured i) = length (whole i)
handshake_bytes _ = 0

abbrev pub fuel_for : World → Session → ℕ
fuel_for w s = suc (bytes_in s.stream + handshake_bytes w.handshake)

module _ (w : World) where
  unfoldable pub upgrade_to_tls : Exec (Unit {0})
  unfolding upgrade_via
  upgrade_to_tls s = upgrade_via w.handshake s.stream s

  -- A closed channel takes no message.
  unfoldable pub hand_over : ReceivedMessage → Exec Verdict
  hand_over m s = let v = w.verdict_at s.log in (ok v, record s { log = s.log ++ handed m v ∷ [] })

  unfoldable pub deliver : ReceivedMessage → Exec (Unit {0})
  deliver m = do v ← hand_over m; write w (answer v)

  unfoldable pub handle_auth_plain : Text → Exec (Unit {0})
  handle_auth_plain line =
      if has_initial_response line
      then write w auth_ok
      else do write w auth_continue; creds ← read_bounded_line; write w auth_ok

  unfoldable pub handle_auth_login : Exec (Unit {0})
  handle_auth_login = do
    write w auth_username
    username ← read_bounded_line
    write w auth_password
    password ← read_bounded_line
    write w auth_ok

  -- The arms of the match on the DATA phase.
  unfoldable pub received : ℕ → Received → Exec Flow
  unfolding deliver
  received count (message raw) s =
      (do deliver (envelope s raw); modify reset_transaction; pure (next 0)) s
  received count gone s = (do modify reset_transaction; pure (next 0)) s
  received count refused s = (do write w message_too_big; pure (next count)) s
  received count lost s = fail io s
  received count pending s = fail timeout s
  received count out_of_fuel s = fail spent s

  unfoldable pub sized : Text → Option SizeRefusal → Exec (Unit {0})
  sized line (some refusal) s = write w (size_refused refusal) s
  sized line none s =
      write w accepted (record s { mail_from = some (extract_address line); rcpt_to = [] })

  unfoldable pub mail_command : Text → Exec (Unit {0})
  unfolding sized
  mail_command line s =
      if s.greeted
      then sized line (declared_size_refusal line s.max_message_size) s
      else write w bad_sequence s

  unfoldable pub rcpt_command : Text → Exec (Unit {0})
  rcpt_command line s =
      if is_none s.mail_from
      then write w bad_sequence s
      else if leb max_recipients (length s.rcpt_to)
      then write w too_many_recipients s
      else write w accepted (record s { rcpt_to = s.rcpt_to ++ extract_address line ∷ [] })

  unfoldable pub data_command : ℕ → Exec Flow
  unfolding received
  data_command count s =
      if is_none s.mail_from || is_empty s.rcpt_to
      then (do write w bad_sequence; pure (next count)) s
      else (do write w data_start; r ← receive_data; received count r) s

  unfoldable pub starttls_command : Exec (Unit {0})
  unfolding upgrade_to_tls
  starttls_command s =
      if s.tls_config
      then (if tls_active s
          then write w bad_sequence s
          else (do write w starttls_ready; upgrade_to_tls) s)
      else write w tls_unavailable s

  unfoldable pub hello_command : Exec (Unit {0})
  hello_command s =
      let s' = reset_transaction (record s { greeted = true }) in write w (ehlo_response s') s'

  abbrev pub going : ℕ → Exec (Unit {0}) → Exec Flow
  going count m = do m; pure (next count)

  -- The branches of the chain on a command, `count` commands into the transaction.
  unfoldable pub run_command : ℕ → Text → Command → Exec Flow
  unfolding hello_command starttls_command mail_command rcpt_command data_command handle_auth_plain
      handle_auth_login
  run_command count line hello = going count hello_command
  run_command count line starttls = going count starttls_command
  run_command count line mail = going count (mail_command line)
  run_command count line rcpt = going count (rcpt_command line)
  run_command count line body = data_command count
  run_command count line quit = do write w bye; pure stop
  run_command count line rset = going count (do modify reset_transaction; write w reset)
  run_command count line auth_plain = going count (handle_auth_plain line)
  run_command count line auth_login = going count handle_auth_login
  run_command count line auth = going count (write w auth_unrecognized)
  run_command count line noop = going count (write w accepted)
  run_command count line unknown = going count (write w unknown_cmd)

  -- One round of the loop on a line, the `count`th of the transaction.
  unfoldable pub round : ℕ → Option Text → Exec Flow
  unfolding run_command
  round count none = pure stop
  round count (some text) =
      if ltb max_commands_per_transaction count
      then (do write w too_many_commands; pure stop)
      else (let line = trim text in run_command count line (classify (to_ascii_uppercase line)))

  unfoldable pub loop : ℕ → ℕ → Exec (Unit {0})
  unfolding round
  loop zero count = fail spent
  loop (suc fuel) count = do
    line ← read_bounded_line
    flow ← round (count + 1) line
    elim flow [ stop ↦ pure tt | next n ↦ loop fuel n ]

  unfoldable pub handle : Exec (Unit {0})
  unfolding loop
  handle s = (do write w greeting; loop (fuel_for w s) 0) s
