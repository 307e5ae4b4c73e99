-- ===== src/Smtp/Handle/Termination.antt =====
-- A session ends: `handle` never runs out of the fuel that the model gives it.
use rustmail.Prelude.{
  ℕ, zero, suc, ◌+◌, ◌≤◌, ◌<◌, ◌≡◌, ◌≢◌, refl, ap, Option, none, some, [], ◌∷◌, arith,
}
use rustmail.Prelude.Text.{Text}
use rustmail.Smtp.Stream.{Input, LineRead, line, too_long, read_line}
use rustmail.Smtp.Stream.Sizes.{size, Accounted, read_line_sizes}
use rustmail.Smtp.Data.{Received, message, gone, refused, lost, pending, out_of_fuel, receive_loop}
use rustmail.Smtp.Data.Bounds.{receive_loop-Ends}
use rustmail.Smtp.Session.{
  SessionError, spent, Result, ok, err, Reply, greeting, message_too_big, data_start, World,
  Handshake, SmtpStream, plain, tls, Session, Exec, pure, modify, continue, ◌>>=◌, ◌>>◌, input_of,
  with_input, with_stream, line_result, read_via, receive_via, max_line_length, reset_transaction,
  reset_after_starttls, read_bounded_line, receive_data, envelope, Flow, stop, next, answer, write,
}
use rustmail.Smtp.Handle.{
  upgrade_to_tls, deliver, hand_over, received, round, loop, handshake_bytes, bytes_in, fuel_for,
  handle,
}
use rustmail.Smtp.Handle.Keeps.{
  Post, Keeps, Keeps-pure, Keeps-bind, Post-seq, Post-write_via, Post-upgrade_via,
}
use rustmail.Smtp.Handle.Rules.{Rules, round-Keeps}

-- The bytes that the session can still read: a plain stream may yet be replaced by a handshake's.
abbrev left_of : Handshake → Option SmtpStream → ℕ
left_of h none = 0
left_of h (some (plain i)) = size i + handshake_bytes h
left_of h (some (tls i)) = size i

abbrev Ended : SessionError → Session → Type 0
Ended e s = e ≢ spent

left_of-with_input :
    (h : Handshake) (st : SmtpStream) (i : Input)
    → left_of h (some (with_input st i)) + size (input_of st) ≡ left_of h (some st) + size i
left_of-with_input h (plain j) i = omega arith
left_of-with_input h (tls j) i = omega arith

module _ (w : World) (n : ℕ) where
  abbrev Within : Session → Type 0
  Within s = left_of w.handshake s.stream ≤ n

  abbrev Kept : {A : Type 0} → Exec A → Type 0
  Kept = Keeps Within Ended

  write-Within : (r : Reply) → Kept (write w r)
  unfolding write
  write-Within r = record {
    at = λ s h. Post-write_via Within Ended s.stream (w.write_at s.log) r s h (λ e k. k);
  }

  line_result-Within : (s : Session) (r : LineRead) → Within s → Post Within Ended (line_result s r)
  line_result-Within s (line []) h = h
  line_result-Within s (line (b ∷ bs)) h = h
  line_result-Within s (too_long b) h = λ e. cc
  line_result-Within s LineRead.failed h = λ e. cc
  line_result-Within s LineRead.never h = λ e. cc

  upgrade-Within : Kept (upgrade_to_tls w)
  unfolding upgrade_to_tls reset_after_starttls reset_transaction
  upgrade-Within = record {
    at = λ s h.
        Post-upgrade_via Within Ended w.handshake s.stream s
          (λ p i e k. omega (arith, ap (left_of w.handshake) e, ap handshake_bytes k)) (λ e k. k)
          (λ e k. k);
  }

  ending : (count : ℕ) → Kept (modify reset_transaction >> pure (next count))
  unfolding reset_transaction
  ending count = Keeps-bind _ _ (record { at = λ s h. h }) (λ _. Keeps-pure (next count))

  deliver-Within : (m : _) → Kept (deliver w m)
  unfolding deliver hand_over
  deliver-Within m = Keeps-bind _ _ (record { at = λ s h. h }) (λ v. write-Within (answer v))

  received-Within :
      (count : ℕ) (r : Received) (s : Session)
      → r ≢ out_of_fuel
      → Within s
      → Post Within Ended (received w count r s)
  unfolding received
  received-Within count (message raw) s e h =
      (Keeps-bind _ _ (deliver-Within (envelope s raw)) (λ _. ending 0)).at s h
  received-Within count gone s e h = (ending 0).at s h
  received-Within count refused s e h =
      (Keeps-bind _ _ (write-Within message_too_big) (λ _. Keeps-pure (next count))).at s h
  received-Within count lost s e h = λ e'. cc
  received-Within count pending s e h = λ e'. cc
  received-Within count out_of_fuel s e h = absurd (e refl)

  receive_via-Within :
      (count : ℕ) (o : Option SmtpStream) (s : Session)
      → left_of w.handshake o ≤ n
      → Post Within Ended ((receive_via o >>= received w count) s)
  unfolding receive_via ◌>>=◌
  receive_via-Within count none s h = λ e. cc
  receive_via-Within count (some st) s h =
      let i = input_of st in
      let ends = receive_loop-Ends (suc (size i)) s.max_message_size [] i (omega arith) in
      let (r, j) = receive_loop (suc (size i)) s.max_message_size [] i in
      received-Within count r (with_stream s st j) ends.0
        (omega (arith, left_of-with_input w.handshake st j, ends.1))

  receive_data-Within :
      (count : ℕ) (s : Session)
      → Within s
      → Post Within Ended ((receive_data >>= received w count) s)
  unfolding receive_data ◌>>=◌
  receive_data-Within count s h = receive_via-Within count s.stream s h

  -- A command read has taken a byte.
  abbrev ReadLess : Result (Option Text) × Session → Type 0
  ReadLess (ok none, s) = Within s
  ReadLess (ok (some t), s) = left_of w.handshake s.stream < n
  ReadLess (err e, s) = e ≢ spent

  line_result-ReadLess :
      (s : Session) (st : SmtpStream) (r : LineRead) (i : Input)
      → left_of w.handshake (some st) ≤ n
      → Accounted (size (input_of st)) (r, i)
      → ReadLess (line_result (with_stream s st i) r)
  line_result-ReadLess s st (line []) i h a = omega (arith, left_of-with_input w.handshake st i)
  line_result-ReadLess s st (line (b ∷ bs)) i h a =
      omega (arith, left_of-with_input w.handshake st i)
  line_result-ReadLess s st (too_long b) i h a = λ e. cc
  line_result-ReadLess s st LineRead.failed i h a = λ e. cc
  line_result-ReadLess s st LineRead.never i h a = λ e. cc

  read_via-ReadLess :
      (o : Option SmtpStream) (s : Session) → left_of w.handshake o ≤ n → ReadLess (read_via o s)
  unfolding read_via
  read_via-ReadLess none s h = λ e. cc
  read_via-ReadLess (some st) s h =
      let sizes = read_line_sizes max_line_length (input_of st) in
      let (r, i) = read_line max_line_length (input_of st) in line_result-ReadLess s st r i h sizes

  read-ReadLess : (s : Session) → Within s → ReadLess (read_bounded_line s)
  unfolding read_bounded_line
  read-ReadLess s h = read_via-ReadLess s.stream s h

  Post-ReadLess : (r : Result (Option Text) × Session) → ReadLess r → Post Within Ended r
  Post-ReadLess (ok none, s) h = h
  Post-ReadLess (ok (some t), s) h = omega arith
  Post-ReadLess (err e, s) h = h

  rules-Within : Rules w Within Ended
  unfolding reset_transaction
  rules-Within = record {
    writes = write-Within;
    reads = record { at = λ s h. Post-ReadLess _ (read-ReadLess s h) };
    resets = λ s h. h;
    greets = λ s h. h;
    upgrades = upgrade-Within;
    mails = λ s a e h. h;
    rcpts = λ s a e k h. h;
    phases = λ count s e k h.
        Post-seq Within Within Ended (write w data_start) _ s ((write-Within data_start).at s h)
          (λ _ s' h'. receive_data-Within count s' h');
  }

abbrev Anywhere : Session → Type 0
Anywhere s = Unit {0}

module _ (w : World) where
  abbrev rest : ℕ → ℕ → Option Text → Exec (Unit {0})
  rest fuel count text = do
    flow ← round w (count + 1) text
    elim flow [ stop ↦ pure tt | next m ↦ loop w fuel m ]

  abbrev Finishes : Exec (Unit {0}) → Session → Type 0
  Finishes m s = Post Anywhere Ended (m s)

  rest-Ended :
      (fuel count n : ℕ) (text : Option Text) (s : Session)
      → Within w n s
      → ((m : ℕ) (s' : Session) → Within w n s' → Finishes (loop w fuel m) s')
      → Finishes (rest fuel count text) s
  rest-Ended fuel count n text s h ih =
      Post-seq (Within w n) Anywhere Ended (round w (count + 1) text) _ s
        ((round-Keeps (rules-Within w n) (count + 1) text).at s h) (after ih)
    where
      after :
          ((m : ℕ) (s' : Session) → Within w n s' → Finishes (loop w fuel m) s')
          → (flow : Flow) (s' : Session) → Within w n s'
          → Finishes (elim flow [ stop ↦ pure tt | next m ↦ loop w fuel m ]) s'
      after ih stop s' k = tt
      after ih (next m) s' k = ih m s' k

  round-none :
      (count : ℕ) (s : Session) (f : Flow → Exec (Unit {0}))
      → (round w count none >>= f) s ≡ f stop s
  unfolding round ◌>>=◌
  round-none count s f = refl

  continue-Ended :
      (fuel count n : ℕ) (r : Result (Option Text) × Session)
      → ReadLess w n r
      → n ≤ fuel
      → ((m : ℕ) (s' : Session)
          → left_of w.handshake s'.stream < fuel
          → Finishes (loop w fuel m) s')
      → Post Anywhere Ended (continue r.0 (rest fuel count) r.1)
  continue-Ended fuel count n (ok none, s) h k ih = rw round-none tt
  continue-Ended fuel count n (ok (some t), s) h k ih =
      rest-Ended fuel count (left_of w.handshake s.stream) (some t) s (omega arith)
        (λ m s' h'. ih m s' (omega arith))
  continue-Ended fuel count n (err e, s) h k ih = h

  loop-Ended :
      (fuel count : ℕ) (s : Session)
      → left_of w.handshake s.stream < fuel
      → Finishes (loop w fuel count) s
  unfolding loop ◌>>=◌
  loop-Ended zero count s h = absurd (omega arith)
  loop-Ended (suc fuel) count s h =
      continue-Ended fuel count fuel (read_bounded_line s) (read-ReadLess w fuel s (omega arith))
        (omega arith) (λ m s' h'. loop-Ended fuel m s' h')

  left_of-le :
      (h : Handshake) (o : Option SmtpStream) → left_of h o ≤ bytes_in o + handshake_bytes h
  left_of-le h none = omega arith
  left_of-le h (some (plain i)) = omega arith
  left_of-le h (some (tls i)) = omega arith

  handle-Finishes : (s : Session) → Finishes (handle w) s
  unfolding handle
  handle-Finishes s =
      let n = left_of w.handshake s.stream in
      Post-seq (Within w n) Anywhere Ended (write w greeting) _ s
        ((write-Within w n greeting).at s (omega arith))
        (λ _ s' h. loop-Ended (fuel_for w s) 0 s' (omega (arith, left_of-le w.handshake s.stream)))

  err-injective : (c d : SessionError) → ◌≡◌ {A = Result (Unit {0})} (err c) (err d) → c ≡ d
  err-injective c d e = cc

  ne-spent_of_Post : (r : Result (Unit {0}) × Session) → Post Anywhere Ended r → r.0 ≢ err spent
  ne-spent_of_Post (ok a, s) h = λ e. cc
  ne-spent_of_Post (err c, s) h = λ e. h (err-injective c spent e)

  -- Whatever the peer sends and whatever the network and the consumer do, the loop of `handle` ends:
  -- the fuel that the model gives it, one more than the bytes that can arrive, is never spent.
  pub handle-ne-spent : (s : Session) → (handle w s).0 ≢ err spent
  handle-ne-spent s = ne-spent_of_Post (handle w s) (handle-Finishes s)
