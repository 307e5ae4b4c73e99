-- ===== src/Smtp/Session.antt =====
-- `Session` of crates/rustmail-smtp/src/session.rs: its state, its replies and `handle`.
-- What the session does not decide is a `World`: which writes succeed, what the consumer of the
-- channel answers, and how a TLS handshake ends. A timeout of the source fires where the awaited
-- step never completes.

use rustmail.Prelude.{
  ℕ, suc, Bool, true, false, not, ◌&&◌, Option, none, some, List, [], ◌∷◌, ◌++◌, length,
}
use rustmail.Prelude.Text.{Text, starts_with}
use rustmail.Prelude.Utf8.{from_utf8_lossy}
use rustmail.Smtp.Stream.{
  Bytes, Input, is_data_terminator, LineRead, line, too_long, read_line, drain_data,
}
use rustmail.Smtp.Stream.Chunks.{whole}
use rustmail.Smtp.Data.{Received, ends_with_newline, unstuffed, after_read, receive_loop}
use rustmail.Smtp.Command.{SizeRefusal}

-- `spent` is the model's: the loop of `handle` ran out of fuel.
pub data SessionError : Type 0 where
  io message_too_large line_too_long tls_upgrade timeout stream_closed spent : SessionError

pub data Result {ℓ} (A : Type ℓ) : Type ℓ where
  ok : A → Result A
  err : SessionError → Result A

-- The response strings. `ehlo` has the size limit and whether STARTTLS is offered.
pub data Reply : Type 0 where
  greeting accepted local_error data_start bye reset unknown_cmd bad_sequence : Reply
  starttls_ready tls_unavailable too_many_recipients too_many_commands message_too_big : Reply
  auth_ok auth_continue auth_username auth_password auth_unrecognized : Reply
  size_refused : SizeRefusal → Reply
  ehlo : ℕ → Bool → Reply

pub record ReceivedMessage : Type 0 where
  pub sender : Text
  pub recipients : List Text
  pub raw : Bytes

-- What `deliver` learns of a message: the channel was closed, the consumer's two answers, an
-- acknowledgement dropped unanswered, or none within `STORE_ACK_TIMEOUT`.
pub data Verdict : Type 0 where
  channel_closed stored rejected dropped unanswered : Verdict

-- A session as the outside sees it: what it wrote, and the messages that it handed over.
pub data Entry : Type 0 where
  replied : Reply → Entry
  handed : ReceivedMessage → Verdict → Entry

pub data WriteResult : Type 0 where
  written write_failed write_stalled : WriteResult

pub data Handshake : Type 0 where
  secured : Input → Handshake
  handshake_failed handshake_stalled : Handshake

-- Each write and each verdict may depend on all that happened before it.
pub record World : Type 0 where
  pub write_at : List Entry → WriteResult
  pub verdict_at : List Entry → Verdict
  pub handshake : Handshake

pub data SmtpStream : Type 0 where
  plain tls : Input → SmtpStream

pub record Session : Type 0 where
  pub stream : Option SmtpStream
  pub max_message_size : ℕ
  pub tls_config : Bool
  pub greeted : Bool
  pub mail_from : Option Text
  pub rcpt_to : List Text
  pub log : List Entry

abbrev pub max_line_length : ℕ
max_line_length = 4096

abbrev pub max_recipients : ℕ
max_recipients = 100

abbrev pub max_commands_per_transaction : ℕ
max_commands_per_transaction = 1000

-- `Session::new`
unfoldable pub new : Input → ℕ → Bool → Session
new input max_message_size tls_config = record {
  stream = some (plain input);
  max_message_size = max_message_size;
  tls_config = tls_config;
  greeted = false;
  mail_from = none;
  rcpt_to = [];
  log = [];
}

abbrev pub Exec : Type 0 → Type 0
Exec A = Session → Result A × Session

abbrev pub pure : {A : Type 0} → A → Exec A
pure a s = (ok a, s)

abbrev pub fail : {A : Type 0} → SessionError → Exec A
fail e s = (err e, s)

abbrev pub modify : (Session → Session) → Exec (Unit {0})
modify f s = (ok tt, f s)

abbrev pub continue : {A B : Type 0} → Result A → (A → Exec B) → Exec B
continue (ok a) f s = f a s
continue (err e) f s = (err e, s)

infixl 5 ◌>>=◌ ◌>>◌
unfoldable pub ◌>>=◌ : {A B : Type 0} → Exec A → (A → Exec B) → Exec B
◌>>=◌ m f s = let (r, s') = m s in continue r f s'

abbrev pub ◌>>◌ : {A B : Type 0} → Exec A → Exec B → Exec B
m >> n = m >>= λ _. n

abbrev pub input_of : SmtpStream → Input
input_of (plain i) = i
input_of (tls i) = i

abbrev pub with_input : SmtpStream → Input → SmtpStream
with_input (plain _) i = plain i
with_input (tls _) i = tls i

abbrev is_tls : Option SmtpStream → Bool
is_tls none = false
is_tls (some (plain i)) = false
is_tls (some (tls i)) = true

unfoldable pub tls_active : Session → Bool
tls_active s = is_tls s.stream

unfoldable pub reset_transaction : Session → Session
reset_transaction s = record s { mail_from = none; rcpt_to = [] }

unfoldable pub reset_after_starttls : Session → Session
unfolding reset_transaction
reset_after_starttls s = reset_transaction (record s { greeted = false })

unfoldable pub ehlo_response : Session → Reply
unfolding tls_active
ehlo_response s = ehlo s.max_message_size (s.tls_config && not (tls_active s))

abbrev pub line_result : Session → LineRead → Result (Option Text) × Session
line_result s (line []) = (ok none, s)
line_result s (line (b ∷ bs)) = (ok (some (from_utf8_lossy (b ∷ bs))), s)
line_result s (too_long b) = (err line_too_long, s)
line_result s LineRead.failed = (err io, s)
line_result s LineRead.never = (err timeout, s)

abbrev pub with_stream : Session → SmtpStream → Input → Session
with_stream s st i = record s { stream = some (with_input st i) }

-- `none` for 0 bytes read.
unfoldable pub read_via : Option SmtpStream → Exec (Option Text)
unfolding read_line from_utf8_lossy
read_via none s = (err stream_closed, s)
read_via (some st) s =
    let (r, i) = read_line max_line_length (input_of st) in line_result (with_stream s st i) r

unfoldable pub read_bounded_line : Exec (Option Text)
unfolding read_via
read_bounded_line s = read_via s.stream s

-- What the bytes of the DATA phase come to, and the stream behind them.
unfoldable pub receive_via : Option SmtpStream → Exec Received
unfolding receive_loop after_read ends_with_newline unstuffed is_data_terminator read_line
    drain_data starts_with
receive_via none s = (err stream_closed, s)
receive_via (some st) s =
    let fuel = suc (length (whole (input_of st))) in
    let (r, i) = receive_loop fuel s.max_message_size [] (input_of st) in (ok r, with_stream s st i)

unfoldable pub receive_data : Exec Received
unfolding receive_via
receive_data s = receive_via s.stream s

abbrev or_empty : Option Text → Text
or_empty none = []
or_empty (some t) = t

unfoldable pub envelope : Session → Bytes → ReceivedMessage
envelope s raw = record { sender = or_empty s.mail_from; recipients = s.rcpt_to; raw = raw }

-- What goes on after a command: the loop, with its count of commands, or the end of the session.
pub data Flow : Type 0 where
  next : ℕ → Flow
  stop : Flow

abbrev pub answer : Verdict → Reply
answer stored = accepted
answer _ = local_error

unfoldable pub write_via : Option SmtpStream → WriteResult → Reply → Exec (Unit {0})
write_via none result r s = (err stream_closed, s)
write_via (some st) written r s = (ok tt, record s { log = s.log ++ replied r ∷ [] })
write_via (some st) write_failed r s = (err io, s)
write_via (some st) write_stalled r s = (err timeout, s)

unfoldable pub write : World → Reply → Exec (Unit {0})
unfolding write_via
write w r s = write_via s.stream (w.write_at s.log) r s
