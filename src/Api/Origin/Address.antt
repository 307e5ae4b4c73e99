-- ===== src/Api/Origin/Address.antt =====
-- A page that was loaded from the address of a request may open the WebSocket.
use mathlib.Core.Path.{subst}
use rustmail.Prelude.{
  ◌≡◌, refl, sym, ap, ◌∙◌, Bool, true, false, ◌||◌, Option, none, some, List, is_empty, any, ◌==◌,
  if◌then◌else◌,
}
use rustmail.Prelude.Text.{
  Text, same_self, trim, ParseInt, parsed, empty, invalid_digit, pos_overflow, parse_unsigned,
}
use rustmail.Api.Origin.{
  Scheme, Origin, Checked, valid, invalid, is_forbidden, split_host_port, is_default_port,
  with_parsed_port, with_port, with_host, normalize_authority, split_scheme, scheme_of, origin_at,
  with_scheme, from_split, from_str, matches, same_host, parsed_allowed, origin_allowed,
  same_origin,
}

-- The second check succeeds as the first does.
abbrev Agree : {A : Type 0} → Checked A → Checked A → Type 0
Agree (valid x) c = c ≡ valid x
Agree (invalid e) c = Unit

if-Agree :
    (b : Bool) (x y v w : Checked Text)
    → Agree x v
    → Agree y w
    → Agree (if b then x else y) (if b then v else w)
if-Agree true x y v w h k = h
if-Agree false x y v w h k = k

module _ (scheme : Scheme) (raw other : Text) where
  with_parsed_port-Agree :
      (host : Text) (p : ParseInt)
      → Agree (with_parsed_port scheme raw host p) (with_parsed_port scheme other host p)
  unfolding with_parsed_port
  with_parsed_port-Agree host (parsed port) =
      if-Agree (port == 0) _ _ _ _ tt (if-Agree (is_default_port scheme port) _ _ _ _ refl refl)
  with_parsed_port-Agree host empty = tt
  with_parsed_port-Agree host invalid_digit = tt
  with_parsed_port-Agree host pos_overflow = tt

  with_port-Agree :
      (host : Text) (p : Option Text)
      → Agree (with_port scheme raw host p) (with_port scheme other host p)
  unfolding with_port
  with_port-Agree host none = refl
  with_port-Agree host (some p) = with_parsed_port-Agree host (parse_unsigned 65535 p)

  with_host-Agree :
      (o : Option (Text × Option Text)) → Agree (with_host scheme raw o) (with_host scheme other o)
  unfolding with_host
  with_host-Agree none = tt
  with_host-Agree (some (host, port)) =
      if-Agree (is_empty host) _ _ _ _ tt (with_port-Agree host port)

  normalize_authority-Agree :
      (a : Text) → Agree (normalize_authority a scheme raw) (normalize_authority a scheme other)
  unfolding normalize_authority
  normalize_authority-Agree a =
      if-Agree (is_empty a || any is_forbidden a) _ _ _ _ tt (with_host-Agree (split_host_port a))

valid-injective : (o p : Origin) → ◌≡◌ {A = Checked Origin} (valid o) (valid p) → o ≡ p
valid-injective o p e = cc

-- What a valid origin says of the check of its own address.
own_host :
    (scheme : Scheme) (authority raw : Text) (c : Checked Text) (o : Origin)
    → Agree c (normalize_authority (trim authority) scheme (trim authority))
    → origin_at scheme c ≡ valid o
    → same_host o (some authority) ≡ true
unfolding same_host matches
own_host scheme authority raw (invalid e) o h q = cc
own_host scheme authority raw (valid a) o h q =
    subst (λ p. same_host p (some authority) ≡ true) (valid-injective _ _ q)
      (ap (matches a) h ∙ same_self a)

with_scheme-own :
    (scheme : Option Scheme) (raw authority : Text) (o : Origin)
    → trim authority ≡ authority
    → with_scheme raw authority scheme ≡ valid o
    → same_host o (some authority) ≡ true
unfolding with_scheme
with_scheme-own none raw authority o e q = cc
with_scheme-own (some scheme) raw authority o e q =
    own_host scheme authority raw (normalize_authority authority scheme raw) o
      (subst
        (λ a.
          Agree (normalize_authority authority scheme raw)
            (normalize_authority a scheme (trim authority)))
        (sym e) (normalize_authority-Agree scheme raw (trim authority) authority))
      q

or-true : (b : Bool) → (b || true) ≡ true
or-true true = refl
or-true false = refl

-- A page that was loaded from the address in the request's `Host` may open the WebSocket, whatever is
-- configured: if an origin is valid, its authority, with no space around it, is an allowed host.
pub origin_allowed-same_host :
    (t scheme authority : Text) (o : Origin) (allowed : List Origin)
    → split_scheme (trim t) ≡ some (scheme, authority)
    → trim authority ≡ authority
    → from_str t ≡ valid o
    → origin_allowed (some t) (some authority) allowed ≡ true
unfolding origin_allowed from_str parsed_allowed from_split
origin_allowed-same_host t scheme authority o allowed s e p =
    let q = ap (from_split (trim t)) (sym s) ∙ p in
    ap (λ c. parsed_allowed c (some authority) allowed) p
    ∙ (ap (λ b. any (same_origin o) allowed || b)
          (with_scheme-own (scheme_of scheme) (trim t) authority o e q)
        ∙ or-true (any (same_origin o) allowed))
