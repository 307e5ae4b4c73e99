-- ===== src/Api/Host.antt =====
-- crates/rustmail-api/src/host.rs, and `hostname_of` of origin.rs: which hosts a browser is answered on.
pub mod Names
use rustmail.Prelude.{
  ℕ, zero, suc, ◌≡◌, refl, ap, ◌∙◌, Bool, true, false, not, ◌&&◌, ◌||◌, Option, none, some, List,
  [], ◌∷◌, ◌++◌, ◌-◌, is_empty, take, drop, any, leb, ◌==◌, if◌then◌else◌, ==_iff, length,
}
use mathlib.Core.List.{reverse}
use rustmail.Prelude.Text.{Text, codes, same, starts_with, to_ascii_lowercase, trim}
use rustmail.Api.Origin.{Origin}

abbrev pub or_here : Bool → Option ℕ → Option ℕ
or_here here (some n) = some (suc n)
or_here true none = some 0
or_here false none = none

-- `s.rfind(c)`
unfoldable pub rfind : ℕ → Text → Option ℕ
rfind c [] = none
rfind c (x ∷ s) = or_here (x == c) (rfind c s)

-- `s.split(c).next()`
unfoldable pub before : ℕ → Text → Text
before c [] = []
before c (x ∷ s) = let rest = before c s in if x == c then [] else x ∷ rest

abbrev pub cut_at : Text → Option ℕ → Text
cut_at authority (some close) = take (suc close) authority
cut_at authority none = before b':' authority

unfoldable pub hostname_of : Text → Text
unfolding rfind before
hostname_of authority = cut_at authority (rfind b']' authority)

pub data HostnameError : Type 0 where
  empty : HostnameError
  not_bare : Text → HostnameError

pub data Parsed : Type 0 where
  hostname : Text → Parsed
  refused : HostnameError → Parsed

abbrev is_alphanumeric : ℕ → Bool
is_alphanumeric c =
    (leb b'0' c && leb c b'9') || (leb b'a' c && leb c b'z') || (leb b'A' c && leb c b'Z')

abbrev is_bare : ℕ → Bool
is_bare c = is_alphanumeric c || c == b'-' || c == b'.' || c == b'_'

-- `Hostname::from_str`
unfoldable pub parse_hostname : Text → Parsed
unfolding trim to_ascii_lowercase
parse_hostname s =
    if is_empty (trim s)
    then refused empty
    else if any (λ c. not (is_bare c)) (trim s)
    then refused (not_bare (trim s))
    else hostname (to_ascii_lowercase (trim s))

-- The headers of a request: by name the value, or none, and a value as `to_str` makes it.
abbrev pub Headers : Type 0
Headers = Text → Option (Option Text)

abbrev pub is_present : Option (Option Text) → Bool
is_present none = false
is_present (some value) = true

unfoldable pub is_mozilla : Option (Option Text) → Bool
unfolding starts_with
is_mozilla (some (some agent)) = starts_with (codes "Mozilla/") agent
is_mozilla (some none) = false
is_mozilla none = false

abbrev browser_markers : List Text
browser_markers =
    codes "sec-fetch-site" ∷ codes "sec-fetch-mode" ∷ codes "sec-fetch-dest" ∷ codes "origin" ∷ []

unfoldable pub is_browser_request : Headers → Bool
unfolding is_mozilla
is_browser_request headers =
    any (λ marker. is_present (headers marker)) browser_markers
    || is_mozilla (headers (codes "user-agent"))

-- `s.ends_with(suffix)`
unfoldable pub ends_with : Text → Text → Bool
unfolding starts_with
ends_with suffix s = starts_with (reverse suffix) (reverse s)

-- Without the brackets, if it has both.
unfoldable pub unbracketed : Text → Text
unfolding ends_with
unbracketed [] = []
unbracketed (c ∷ s) = if c == b'[' && ends_with (codes "]") s then take (length s - 1) s else c ∷ s

-- `is_ip` is the standard library's parser of `IpAddr`.
module _ (is_ip : Text → Bool) where
  unfoldable pub name_allowed : Text → List Text → List Origin → Bool
  unfolding same ends_with hostname_of unbracketed
  name_allowed host allowed origins =
      if is_empty host
      then false
      else if is_ip (unbracketed host)
          || same host (codes "localhost")
          || ends_with (codes ".localhost") host
      then true
      else any (λ name. same name host) allowed
        || any (λ o. same (hostname_of o.authority) host) origins

  unfoldable pub value_allowed : Option (Option Text) → List Text → List Origin → Bool
  unfolding name_allowed hostname_of to_ascii_lowercase trim
  value_allowed (some (some host)) allowed origins =
      name_allowed (to_ascii_lowercase (hostname_of (trim host))) allowed origins
  value_allowed (some none) allowed origins = false
  value_allowed none allowed origins = false

  unfoldable pub host_allowed : Headers → List Text → List Origin → Bool
  unfolding value_allowed
  host_allowed headers = value_allowed (headers (codes "host"))

  -- Whether `guard_host` lets the request through.
  unfoldable pub guard_host : Headers → List Text → List Origin → Bool
  unfolding is_browser_request host_allowed
  guard_host headers allowed origins =
      not (is_browser_request headers && not (host_allowed headers allowed origins))
