-- ===== src/Api/Origin.antt =====
-- crates/rustmail-api/src/origin.rs: the parser of an origin, and the check of a handshake.
pub mod Address
use mathlib.Core.Option
use rustmail.Prelude.{
  ℕ, zero, suc, ◌+◌, ◌/◌, ◌%◌, Bool, true, false, ◌&&◌, ◌||◌, Option, none, some, List, [], ◌∷◌,
  ◌++◌, length, is_empty, take, drop, any, ltb, ◌==◌, if◌then◌else◌,
}
use rustmail.Prelude.Text.{
  Text, codes, same, starts_with, to_ascii_lowercase, trim, find, split_once, ParseInt, parsed,
  empty, invalid_digit, pos_overflow, parse_unsigned,
}

pub data Scheme : Type 0 where
  http https : Scheme

pub record Origin : Type 0 where
  pub scheme : Scheme
  pub authority : Text

pub data OriginError : Type 0 where
  unsupported_scheme malformed_authority invalid_port : Text → OriginError

-- `Result<_, OriginError>`
pub data Checked (A : Type 0) : Type 0 where
  valid : A → Checked A
  invalid : OriginError → Checked A

-- The characters that no authority has.
unfoldable pub is_forbidden : ℕ → Bool
is_forbidden c = c == b'/' || c == b'?' || c == b'#' || c == b'@' || c == b' ' || c == 9

abbrev pub after_bracket : Text → Text → Option (Text × Option Text)
after_bracket host [] = some (host, none)
after_bracket host (c ∷ port) = if c == b':' then some (host, some port) else none

abbrev pub bracketed : Text → Option ℕ → Option (Text × Option Text)
bracketed authority none = none
bracketed authority (some close) =
    after_bracket (to_ascii_lowercase (take (suc close) authority)) (drop (suc close) authority)

abbrev pub unbracketed : Text → Option (Text × Text) → Option (Text × Option Text)
unbracketed authority none = some (to_ascii_lowercase authority, none)
unbracketed authority (some (host, port)) = some (to_ascii_lowercase host, some port)

unfoldable pub split_host_port : Text → Option (Text × Option Text)
unfolding starts_with find split_once
split_host_port authority =
    if starts_with (codes "[") authority
    then bracketed authority (find b']' authority)
    else unbracketed authority (split_once b':' authority)

unfoldable pub is_default_port : Scheme → ℕ → Bool
is_default_port http port = port == 80
is_default_port https port = port == 443

-- The decimal digits of a number below 10 ^ `count`, before `rest`.
unfoldable pub digits : ℕ → ℕ → Text → Text
digits zero n rest = rest
digits (suc count) n rest =
    let more = digits count (n / 10) ((48 + n % 10) ∷ rest) in
    if ltb n 10 then (48 + n) ∷ rest else more

-- `Display` of a `u16`, which has at most five digits.
unfoldable pub decimal : ℕ → Text
unfolding digits
decimal n = digits 5 n []

unfoldable pub with_parsed_port : Scheme → Text → Text → ParseInt → Checked Text
unfolding decimal is_default_port
with_parsed_port scheme raw host (parsed port) =
    if port == 0
    then invalid (invalid_port raw)
    else if is_default_port scheme port
    then valid host
    else valid (host ++ codes ":" ++ decimal port)
with_parsed_port scheme raw host empty = invalid (invalid_port raw)
with_parsed_port scheme raw host invalid_digit = invalid (invalid_port raw)
with_parsed_port scheme raw host pos_overflow = invalid (invalid_port raw)

unfoldable pub with_port : Scheme → Text → Text → Option Text → Checked Text
unfolding with_parsed_port parse_unsigned
with_port scheme raw host none = valid host
with_port scheme raw host (some port) = with_parsed_port scheme raw host (parse_unsigned 65535 port)

unfoldable pub with_host : Scheme → Text → Option (Text × Option Text) → Checked Text
unfolding with_port
with_host scheme raw none = invalid (malformed_authority raw)
with_host scheme raw (some (host, port)) =
    if is_empty host then invalid (malformed_authority raw) else with_port scheme raw host port

unfoldable pub normalize_authority : Text → Scheme → Text → Checked Text
unfolding with_host split_host_port is_forbidden
normalize_authority authority scheme raw =
    if is_empty authority || any is_forbidden authority
    then invalid (malformed_authority raw)
    else with_host scheme raw (split_host_port authority)

-- `s.split_once("://")`
unfoldable pub split_scheme : Text → Option (Text × Text)
unfolding starts_with
split_scheme [] = none
split_scheme (c ∷ s) =
    let rest = Option.map (λ p. (c ∷ p.0, p.1)) (split_scheme s) in
    if starts_with (codes "://") (c ∷ s) then some ([], drop 3 (c ∷ s)) else rest

unfoldable pub scheme_of : Text → Option Scheme
unfolding same to_ascii_lowercase
scheme_of s =
    if same (to_ascii_lowercase s) (codes "http")
    then some http
    else if same (to_ascii_lowercase s) (codes "https")
    then some https
    else none

abbrev pub origin_at : Scheme → Checked Text → Checked Origin
origin_at scheme (valid authority) = valid (record { scheme = scheme; authority = authority })
origin_at scheme (invalid e) = invalid e

unfoldable pub with_scheme : Text → Text → Option Scheme → Checked Origin
unfolding normalize_authority
with_scheme raw authority none = invalid (unsupported_scheme raw)
with_scheme raw authority (some scheme) =
    origin_at scheme (normalize_authority authority scheme raw)

unfoldable pub from_split : Text → Option (Text × Text) → Checked Origin
unfolding with_scheme scheme_of
from_split raw none = invalid (unsupported_scheme raw)
from_split raw (some (scheme, authority)) = with_scheme raw authority (scheme_of scheme)

unfoldable pub from_str : Text → Checked Origin
unfolding from_split split_scheme trim
from_str s = from_split (trim s) (split_scheme (trim s))

abbrev same_scheme : Scheme → Scheme → Bool
same_scheme http http = true
same_scheme https https = true
same_scheme _ _ = false

unfoldable pub same_origin : Origin → Origin → Bool
unfolding same
same_origin o p = same_scheme o.scheme p.scheme && same o.authority p.authority

unfoldable pub matches : Text → Checked Text → Bool
unfolding same
matches authority (valid host) = same host authority
matches authority (invalid e) = false

-- A header is what `to_str` makes of it: none if it is missing or not visible ASCII.
unfoldable pub same_host : Origin → Option Text → Bool
unfolding matches normalize_authority trim
same_host origin none = false
same_host origin (some host) =
    matches origin.authority (normalize_authority (trim host) origin.scheme (trim host))

unfoldable pub parsed_allowed : Checked Origin → Option Text → List Origin → Bool
unfolding same_host same_origin
parsed_allowed (invalid e) host allowed = false
parsed_allowed (valid origin) host allowed =
    any (same_origin origin) allowed || same_host origin host

unfoldable pub origin_allowed : Option Text → Option Text → List Origin → Bool
unfolding parsed_allowed from_str
origin_allowed none host allowed = false
origin_allowed (some origin) host allowed = parsed_allowed (from_str origin) host allowed
