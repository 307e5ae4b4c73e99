-- ===== src/Smtp/Tests.antt =====
-- Runs of the SMTP model on concrete input, and the instances of its theorems.
use rustmail.Prelude.{arith, ◌≡◌, ◌≢◌, refl, true, [], ◌∷◌, All}
use rustmail.Prelude.Text.{Text, codes, to_ascii_uppercase, trim, split_ascii_whitespace, find}
use rustmail.Smtp.Command
use rustmail.Smtp.Stream
use rustmail.Smtp.Session
use rustmail.Smtp.Handle
use rustmail.Smtp.Stream.{Bytes, Input, closed, read_line}
use rustmail.Smtp.Stream.Chunks.{whole, line_spec, view, view-read_line}
use rustmail.Smtp.Data.{after_read, receive_loop, refused}
use rustmail.Smtp.Data.Bounds.{Fits, Ends, receive_loop-Fits, receive_loop-Ends}
use rustmail.Smtp.Session.{
  Result, err, spent, greeting, accepted, data_start, bye, ehlo, replied, handed, stored, written,
  handshake_failed, World, Session, new, Entry,
}
use rustmail.Smtp.Handle.{handle}
use rustmail.Smtp.Handle.Log.{Fitting, Answered}
use rustmail.Smtp.Handle.Safety.{handle-Fitting, handle-Answered}
use rustmail.Smtp.Handle.Termination.{handle-ne-spent}

abbrev honest : World
honest = record { write_at = λ l. written; verdict_at = λ l. stored; handshake = handshake_failed }

abbrev crlf : Text → Bytes
crlf [] = b'\r' ∷ b'\n' ∷ []
crlf (c ∷ s) = c ∷ crlf s

abbrev script : Input
script = record {
  buffer = [];
  incoming =
      crlf (codes "EHLO me")
      ∷ crlf (codes "MAIL FROM:<a@b>")
      ∷ crlf (codes "rcpt to:<c@d>")
      ∷ crlf (codes "DATA")
      ∷ crlf (codes "..hi")
      ∷ crlf (codes ".")
      ∷ crlf (codes "QUIT")
      ∷ [];
  ending = closed;
}

-- A whole conversation, with its one message unstuffed.
script_log :
    (handle honest (new script 100 true)).1.log
    ≡ replied greeting
      ∷ replied (ehlo 100 true)
      ∷ replied accepted
      ∷ replied accepted
      ∷ replied data_start
      ∷ handed
          (record { sender = codes "a@b"; recipients = codes "c@d" ∷ []; raw = crlf (codes ".hi") })
          stored
      ∷ replied accepted
      ∷ replied bye
      ∷ []
unfolding handle Session.◌>>=◌ Session.write new Session.read_bounded_line Command.classify
    to_ascii_uppercase trim Command.declared_size_refusal split_ascii_whitespace
    Session.receive_data Handle.hand_over Session.ehlo_response Session.envelope
    Command.extract_address find
script_log = refl

handle-Answered_example : Answered (handle honest (new script 100 true)).1.log
handle-Answered_example = handle-Answered honest script 100 true

handle-Fitting_example : All (Fitting 100) (handle honest (new script 100 true)).1.log
handle-Fitting_example = handle-Fitting honest script 100 true

handle-ne-spent_example : (handle honest (new script 100 true)).0 ≢ err spent
handle-ne-spent_example = handle-ne-spent honest (new script 100 true)

-- A line that arrives in two reads, and is too long for the second limit.
abbrev halves : Input
halves = record {
  buffer = codes "QU";
  incoming = codes "IT\r" ∷ (b'\n' ∷ codes "NO") ∷ [];
  ending = closed;
}

view-read_line_example : view (read_line 10 halves) ≡ line_spec 10 (whole halves) closed
view-read_line_example = view-read_line 10 halves

abbrev body : Input
body = record {
  buffer = [];
  incoming = crlf (codes "hello") ∷ crlf (codes ".") ∷ [];
  ending = closed;
}

receive_loop-Ends_example : Ends 10 (receive_loop 11 20 [] body)
receive_loop-Ends_example = receive_loop-Ends 11 20 [] body (omega arith)

receive_loop-Fits_example : Fits 20 (receive_loop 11 20 [] body).0
receive_loop-Fits_example = receive_loop-Fits 11 20 [] body (omega arith)

-- The limit counts the dot that stuffing adds: a body of five bytes is refused under a limit of five.
abbrev stuffed : Input
stuffed = record {
  buffer = [];
  incoming = crlf (codes "..hi") ∷ crlf (codes ".") ∷ [];
  ending = closed;
}

stuffed-refused : (receive_loop 20 5 [] stuffed).0 ≡ refused
unfolding receive_loop after_read read_line Stream.is_data_terminator Stream.drain_data
stuffed-refused = refl
