-- ===== src/Smtp/Command.antt =====
-- The text of a command: the tests of `handle`, and `redact_auth`, `declared_size_refusal`,
-- `command_verb` and `extract_address` of crates/rustmail-smtp/src/session.rs.

use rustmail.Prelude.{
  ℕ, ◌+◌, ◌-◌, ◌≡◌, refl, Bool, false, not, ◌&&◌, Option, none, some, List, [], ◌∷◌, is_empty, take,
  drop, ltb, leb, if◌then◌else◌,
}
use rustmail.Prelude.Text.{
  Text, codes, same, starts_with, to_ascii_uppercase, trim, find, split_once,
  split_ascii_whitespace, ParseInt, parsed, empty, invalid_digit, pos_overflow, parse_unsigned,
  u64_max, utf8_len,
}

pub data Command : Type 0 where
  hello starttls mail rcpt body quit rset auth_plain auth_login auth noop unknown : Command

-- The chain of tests on the line in upper case, in its order.
unfoldable pub classify : Text → Command
unfolding starts_with same
classify upper =
    if starts_with (codes "EHLO") upper
    then hello
    else if starts_with (codes "HELO") upper
    then hello
    else if same upper (codes "STARTTLS")
    then starttls
    else if starts_with (codes "MAIL FROM:") upper
    then mail
    else if starts_with (codes "RCPT TO:") upper
    then rcpt
    else if same upper (codes "DATA")
    then body
    else if same upper (codes "QUIT")
    then quit
    else if same upper (codes "RSET")
    then rset
    else if starts_with (codes "AUTH PLAIN") upper
    then auth_plain
    else if starts_with (codes "AUTH LOGIN") upper
    then auth_login
    else if starts_with (codes "AUTH") upper
    then auth
    else if same upper (codes "NOOP")
    then noop
    else unknown

-- The text between the first '<' and the first '>', or all that follows the first ':'.
unfoldable pub after_colon : Text → Text
after_colon line = elim (split_once b':' line) [ none ↦ [] | some p ↦ trim p.1 ]

unfoldable pub extract_address : Text → Text
unfolding after_colon
extract_address line = elim (find b'<' line) [
  | none ↦ after_colon line
  | some start ↦ elim (find b'>' line) [
    | none ↦ after_colon line
    | some end ↦
        if ltb start end then take (end - (start + 1)) (drop (start + 1) line) else after_colon line
  ]
]

-- The two replies that refuse a declared size.
pub data SizeRefusal : Type 0 where
  size_exceeded size_malformed : SizeRefusal

-- A word `SIZE=…`, in any case: what follows the `=`.
unfoldable pub size_value : Text → Option Text
size_value param =
    if same (to_ascii_uppercase (take 5 param)) (codes "SIZE=") then some (drop 5 param) else none

unfoldable pub find_size : List Text → Option Text
unfolding size_value
find_size [] = none
find_size (param ∷ params) = elim (size_value param) [ none ↦ find_size params | some v ↦ some v ]

-- `usize` has 64 bits.
unfoldable pub refusal_of : ℕ → ParseInt → Option SizeRefusal
refusal_of most (parsed size) = if leb size most then none else some size_exceeded
refusal_of most pos_overflow = some size_exceeded
refusal_of most empty = some size_malformed
refusal_of most invalid_digit = some size_malformed

unfoldable pub declared_size_refusal : Text → ℕ → Option SizeRefusal
unfolding find_size refusal_of
declared_size_refusal line most = elim (find_size (drop 1 (split_ascii_whitespace line))) [
  | none ↦ none
  | some value ↦ refusal_of most (parse_unsigned u64_max value)
]

-- Whether the third of `line.splitn(3, ' ')` is there and not empty: `AUTH PLAIN` with a response.
unfoldable pub has_initial_response : Text → Bool
has_initial_response line = elim (split_once b' ' line) [
  | none ↦ false
  | some p ↦ elim (split_once b' ' p.1) [ none ↦ false | some q ↦ not (is_empty q.1) ]
]

-- What the log shows of a command.
unfoldable pub redact_auth : Text → Text
redact_auth cmd =
    if ltb 11 (utf8_len cmd) && same (to_ascii_uppercase (take 10 cmd)) (codes "AUTH PLAIN")
    then codes "AUTH PLAIN [REDACTED]"
    else cmd

abbrev max_logged_verb_chars : ℕ
max_logged_verb_chars = 8

abbrev first_word : List Text → Text
first_word [] = []
first_word (w ∷ ws) = w

unfoldable pub command_verb : Text → Text
command_verb line = take max_logged_verb_chars (first_word (split_ascii_whitespace line))

address_tests :
    (extract_address (codes "MAIL FROM:<user@example.com>") ≡ codes "user@example.com")
    × (extract_address (codes "MAIL FROM: user@example.com") ≡ codes "user@example.com")
    × (declared_size_refusal (codes "MAIL FROM:<a@t.com> BODY=8BITMIME size=101") 100
        ≡ some size_exceeded)
    × (declared_size_refusal (codes "MAIL FROM:<a@t.com> SIZE=99999999999999999999999") 100
        ≡ some size_exceeded)
    × (declared_size_refusal (codes "MAIL FROM:<a@t.com> SIZE=x") 100 ≡ some size_malformed)
    × (declared_size_refusal (codes "MAIL FROM:<a@t.com> SIZE=100") 100 ≡ none)
    × (command_verb (codes "Passwordhunter2:abc") ≡ codes "Password")
unfolding extract_address find split_once trim declared_size_refusal size_value same
    to_ascii_uppercase split_ascii_whitespace parse_unsigned command_verb
address_tests = (refl, refl, refl, refl, refl, refl, refl)
