-- ===== src/Smtp/Handle/Safety.antt =====
-- What holds of a session's state and log, whatever the peer, the consumer and the network do.
use rustmail.Prelude.{
  ℕ, zero, suc, ◌+◌, ◌≤◌, ◌≡◌, refl, ap, Bool, false, Option, none, some, List, [], ◌∷◌, ◌++◌,
  length, length-append, is_empty, All, All-append, arith,
}
use rustmail.Smtp.Stream.{Input, LineRead, line, too_long, read_line}
use rustmail.Smtp.Stream.Chunks.{whole}
use rustmail.Smtp.Data.{Received, message, gone, refused, lost, pending, out_of_fuel, receive_loop}
use rustmail.Smtp.Data.Bounds.{Fits, receive_loop-Fits}
use rustmail.Smtp.Session.{
  SessionError, Result, ok, err, Reply, data_start, message_too_big, ReceivedMessage, replied,
  handed, World, SmtpStream, Session, max_recipients, Exec, pure, modify, ◌>>=◌, ◌>>◌, input_of,
  with_stream, line_result, read_via, receive_via, max_line_length, reset_transaction,
  reset_after_starttls, read_bounded_line, receive_data, envelope, Flow, stop, next, answer, write,
  new,
}
use rustmail.Smtp.Handle.{
  is_none, upgrade_to_tls, hand_over, deliver, received, loop, fuel_for, handle,
}
use rustmail.Smtp.Handle.Keeps.{
  Post, Keeps, Keeps-pure, Keeps-bind, Post-seq, Post-write_via, Post-upgrade_via,
}
use rustmail.Smtp.Handle.Rules.{Rules, round-Keeps}
use rustmail.Smtp.Handle.Log.{
  Fitting, Answered, Settled, Settled-replied, Settled-handed, Waiting-answered, Answered-Waiting,
  Answered-Settled,
}

-- Between two commands.
pub record Safe (cap : ℕ) (s : Session) : Type 0 where
  pub capped : s.max_message_size ≡ cap
  pub within : length s.rcpt_to ≤ max_recipients
  pub sender_first : s.mail_from ≡ none → s.rcpt_to ≡ []
  pub hello_first : s.greeted ≡ false → s.mail_from ≡ none
  pub fitting : All (Fitting cap) s.log
  pub settled : Settled s.log

-- After an error.
pub record Sound (cap : ℕ) (e : SessionError) (s : Session) : Type 0 where
  pub fitting : All (Fitting cap) s.log
  pub answered : Answered s.log

Sound-Safe : (cap : ℕ) (e : SessionError) (s : Session) → Safe cap s → Sound cap e s
Sound-Safe cap e s h = record { fitting = h.fitting; answered = Answered-Settled s.log h.settled }

module _ (w : World) (cap : ℕ) where
  abbrev Kept : {A : Type 0} → Exec A → Type 0
  Kept = Keeps (Safe cap) (Sound cap)

  Safe-replied :
      (r : Reply) (s : Session) → Safe cap s → Safe cap (record s { log = s.log ++ replied r ∷ [] })
  Safe-replied r s h = record {
    capped = h.capped;
    within = h.within;
    sender_first = h.sender_first;
    hello_first = h.hello_first;
    fitting = All-append (Fitting cap) s.log _ h.fitting (tt, tt);
    settled = Settled-replied s.log r h.settled;
  }

  write-Safe : (r : Reply) → Kept (write w r)
  unfolding write
  write-Safe r = record {
    at = λ s h.
        Post-write_via (Safe cap) (Sound cap) s.stream (w.write_at s.log) r s (Safe-replied r s h)
          (λ e _. Sound-Safe cap e s h);
  }

  Safe-stream :
      (s : Session) (st : SmtpStream) (i : Input) → Safe cap s → Safe cap (with_stream s st i)
  Safe-stream s st i h = record {
    capped = h.capped;
    within = h.within;
    sender_first = h.sender_first;
    hello_first = h.hello_first;
    fitting = h.fitting;
    settled = h.settled;
  }

  line_result-Safe :
      (s : Session) (r : LineRead) → Safe cap s → Post (Safe cap) (Sound cap) (line_result s r)
  line_result-Safe s (line []) h = h
  line_result-Safe s (line (b ∷ bs)) h = h
  line_result-Safe s (too_long b) h = Sound-Safe cap _ s h
  line_result-Safe s LineRead.failed h = Sound-Safe cap _ s h
  line_result-Safe s LineRead.never h = Sound-Safe cap _ s h

  read_via-Safe : (o : Option SmtpStream) → Kept (read_via o)
  unfolding read_via
  read_via-Safe none = record { at = λ s h. Sound-Safe cap _ s h }
  read_via-Safe (some st) = record {
    at = λ s h.
        let (r, i) = read_line max_line_length (input_of st) in
        line_result-Safe (with_stream s st i) r (Safe-stream s st i h);
  }

  reset_transaction-Safe : (s : Session) → Safe cap s → Safe cap (reset_transaction s)
  unfolding reset_transaction
  reset_transaction-Safe s h = record {
    capped = h.capped;
    within = omega arith;
    sender_first = λ e. refl;
    hello_first = λ e. refl;
    fitting = h.fitting;
    settled = h.settled;
  }

  upgrade-Safe : Kept (upgrade_to_tls w)
  unfolding upgrade_to_tls reset_after_starttls reset_transaction
  upgrade-Safe = record {
    at = λ s h.
        Post-upgrade_via (Safe cap) (Sound cap) w.handshake s.stream s
          (λ p i _ _. record {
            capped = h.capped;
            within = omega arith;
            sender_first = λ e. refl;
            hello_first = λ e. refl;
            fitting = h.fitting;
            settled = h.settled;
          })
          (λ e _. Sound-Safe cap e s h)
          (λ e _. record { fitting = h.fitting; answered = Answered-Settled s.log h.settled });
  }

  -- A message goes out with the transaction's recipients and is answered at once.
  deliver-Safe :
      (m : ReceivedMessage) (s : Session)
      → 1 ≤ length m.recipients
      → length m.recipients ≤ max_recipients
      → length m.raw ≤ cap
      → Safe cap s
      → Post (Safe cap) (Sound cap) (deliver w m s)
  unfolding deliver hand_over ◌>>=◌ write
  deliver-Safe m s some_to within small h =
      let v = w.verdict_at s.log in
      let waiting = Settled-handed s.log m v h.settled in
      let log = s.log ++ handed m v ∷ [] in
      let fitting = All-append (Fitting cap) s.log _ h.fitting ((some_to, within, small), tt) in
      Post-write_via (Safe cap) (Sound cap) s.stream (w.write_at log) (answer v)
        (record s { log = log })
        (record {
          capped = h.capped;
          within = h.within;
          sender_first = h.sender_first;
          hello_first = h.hello_first;
          fitting = All-append (Fitting cap) log _ fitting (tt, tt);
          settled = Waiting-answered log v waiting;
        })
        (λ e _. record { fitting = fitting; answered = Answered-Waiting log v waiting })

  ending : (count : ℕ) → Kept (modify reset_transaction >> pure (next 0))
  ending count = Keeps-bind _ _ (record { at = reset_transaction-Safe }) (λ _. Keeps-pure (next 0))

  received-Safe :
      (count : ℕ) (r : Received) (s : Session)
      → Fits cap r
      → 1 ≤ length s.rcpt_to
      → Safe cap s
      → Post (Safe cap) (Sound cap) (received w count r s)
  unfolding received
  received-Safe count (message raw) s fits some_to h =
      Post-seq (Safe cap) (Safe cap) (Sound cap) (deliver w (envelope s raw)) _ s
        (unfold envelope in deliver-Safe (envelope s raw) s some_to h.within fits h)
        (λ _. (ending count).at)
  received-Safe count gone s fits some_to h = (ending count).at s h
  received-Safe count refused s fits some_to h =
      (Keeps-bind _ _ (write-Safe message_too_big) (λ _. Keeps-pure (next count))).at s h
  received-Safe count lost s fits some_to h = Sound-Safe cap _ s h
  received-Safe count pending s fits some_to h = Sound-Safe cap _ s h
  received-Safe count out_of_fuel s fits some_to h = Sound-Safe cap _ s h

  -- During the DATA phase there is a recipient.
  abbrev Addressed : Session → Type 0
  Addressed s = Safe cap s × (1 ≤ length s.rcpt_to)

  receive_via-Safe :
      (count : ℕ) (o : Option SmtpStream) (s : Session)
      → Addressed s
      → Post (Safe cap) (Sound cap) ((receive_via o >>= received w count) s)
  unfolding receive_via ◌>>=◌
  receive_via-Safe count none s h = Sound-Safe cap _ s h.0
  receive_via-Safe count (some st) s h =
      let fuel = suc (length (whole (input_of st))) in
      let (r, i) = receive_loop fuel s.max_message_size [] (input_of st) in
      received-Safe count r (with_stream s st i)
        (rw (← h.0.capped)
          (receive_loop-Fits fuel s.max_message_size [] (input_of st) (omega arith)))
        h.1 (Safe-stream s st i h.0)

  receive_data-Safe :
      (count : ℕ) (s : Session)
      → Addressed s
      → Post (Safe cap) (Sound cap) ((receive_data >>= received w count) s)
  unfolding receive_data ◌>>=◌
  receive_data-Safe count s h = receive_via-Safe count s.stream s h

  data-Addressed : Keeps Addressed (Sound cap) (write w data_start)
  unfolding write
  data-Addressed = record {
    at = λ s h.
        Post-write_via Addressed (Sound cap) s.stream (w.write_at s.log) data_start s
          (Safe-replied data_start s h.0, h.1) (λ e _. Sound-Safe cap e s h.0);
  }

  positive : {A : Type 0} (l : List A) → is_empty l ≡ false → 1 ≤ length l
  positive [] e = cc
  positive (x ∷ l) e = omega arith

  rules-Safe : Rules w (Safe cap) (Sound cap)
  rules-Safe = record {
    writes = write-Safe;
    reads = record { at = λ s h. unfold read_bounded_line in (read_via-Safe s.stream).at s h };
    resets = reset_transaction-Safe;
    greets = λ s h. record {
      capped = h.capped;
      within = h.within;
      sender_first = h.sender_first;
      hello_first = λ e. cc;
      fitting = h.fitting;
      settled = h.settled;
    };
    upgrades = upgrade-Safe;
    mails = λ s a e h. record {
      capped = h.capped;
      within = omega arith;
      sender_first = λ e. refl;
      hello_first = λ e'. cc (e, e');
      fitting = h.fitting;
      settled = h.settled;
    };
    rcpts = λ s a e k h. record {
      capped = h.capped;
      within = omega (arith, length-append s.rcpt_to (a ∷ []));
      sender_first = λ e'. cc (e, ap is_none e');
      hello_first = h.hello_first;
      fitting = h.fitting;
      settled = h.settled;
    };
    phases = λ count s e k h.
        Post-seq Addressed (Safe cap) (Sound cap) (write w data_start) _ s
          (data-Addressed.at s (h, positive s.rcpt_to k))
          (λ _ s' h'. receive_data-Safe count s' h');
  }

  loop-Safe : (fuel count : ℕ) → Kept (loop w fuel count)
  unfolding loop
  loop-Safe zero count = record { at = λ s h. Sound-Safe cap _ s h }
  loop-Safe (suc fuel) count = Keeps-bind _ _ (rules-Safe.reads) (λ line.
      Keeps-bind _ _ (round-Keeps rules-Safe (count + 1) line)
        (λ flow. after flow (loop-Safe fuel)))
    where
      after :
          (flow : Flow)
          → ((n : ℕ) → Kept (loop w fuel n))
          → Kept (elim flow [ stop ↦ pure tt | next n ↦ loop w fuel n ])
      after stop ih = Keeps-pure tt
      after (next n) ih = ih n

  handle-Safe : Kept (handle w)
  unfolding handle
  handle-Safe = record {
    at = λ s h.
        Post-seq (Safe cap) (Safe cap) (Sound cap) (write w _) _ s ((write-Safe _).at s h)
          (λ _. (loop-Safe (fuel_for w s) 0).at);
  }

module _ (w : World) (i : Input) (cap : ℕ) (tls_config : Bool) where
  new-Safe : Safe cap (new i cap tls_config)
  unfolding new
  new-Safe = record {
    capped = refl;
    within = omega arith;
    sender_first = λ e. refl;
    hello_first = λ e. refl;
    fitting = tt;
    settled = tt;
  }

  Sound-Post :
      (r : Result (Unit {0}) × Session)
      → Post (Safe cap) (Sound cap) r
      → All (Fitting cap) r.1.log × Answered r.1.log
  Sound-Post (ok a, s) h = (h.fitting, Answered-Settled s.log h.settled)
  Sound-Post (err e, s) h = (h.fitting, h.answered)

  session_lem :
      All (Fitting cap) (handle w (new i cap tls_config)).1.log
      × Answered (handle w (new i cap tls_config)).1.log
  session_lem = Sound-Post _ ((handle-Safe w cap).at _ new-Safe)

  -- Whatever the peer sends, however the network and the consumer behave and however the session
  -- ends, every message that it hands over has between 1 and 100 recipients and at most `cap` bytes.
  pub handle-Fitting : All (Fitting cap) (handle w (new i cap tls_config)).1.log
  handle-Fitting = session_lem.0

  -- Whatever the peer sends and however the session ends, the entry of the log right behind a message
  -- that was handed over, where there is one, is the reply `250 OK` if the message was stored and a
  -- reply `451` if it was not.
  pub handle-Answered : Answered (handle w (new i cap tls_config)).1.log
  handle-Answered = session_lem.1
