-- ===== src/Api/Host/Names.antt =====
-- What the check of a `Host` makes of a port, and of a name that nobody configured.
use rustmail.Prelude.{
  or_false, ℕ, ◌≡◌, refl, sym, ap, ◌∙◌, Bool, false, none, some, List, [], ◌∷◌, ◌++◌, any, ◌==◌,
  ==_iff,
}
use rustmail.Prelude.Text.{Text, codes, to_ascii_lowercase, trim}
use rustmail.Api.Origin.{Origin}
use rustmail.Api.Host.{
  rfind, before, cut_at, hostname_of, Headers, name_allowed, value_allowed, host_allowed,
}

abbrev pub Lacks : ℕ → Text → Type 0
Lacks c s = any (λ x. x == c) s ≡ false

rfind-Lacks : (c : ℕ) (s : Text) → Lacks c s → rfind c s ≡ none
unfolding rfind
rfind-Lacks c [] h = refl
rfind-Lacks c (x ∷ s) h = let (a, b) = or_false (x == c) _ h in rw (a, rfind-Lacks c s b) refl

any-append : (c : ℕ) (s t : Text) → Lacks c s → Lacks c t → Lacks c (s ++ t)
any-append c [] t h k = k
any-append c (x ∷ s) t h k = let (a, b) = or_false (x == c) _ h in rw (a, any-append c s t b k) refl

before-append : (c : ℕ) (s t : Text) → Lacks c s → before c (s ++ c ∷ t) ≡ s
unfolding before
before-append c [] t h = rw ((==_iff c c).1 refl) refl
before-append c (x ∷ s) t h =
    let (a, b) = or_false (x == c) _ h in rw (a, before-append c s t b) refl

hostname_of-port :
    (host port : Text)
    → Lacks b']' (host ++ b':' ∷ port)
    → Lacks b':' host
    → hostname_of (host ++ b':' ∷ port) ≡ host
unfolding hostname_of
hostname_of-port host port h k =
    ap (cut_at (host ++ b':' ∷ port)) (rfind-Lacks b']' (host ++ b':' ∷ port) h)
    ∙ before-append b':' host port k

before-Lacks : (c : ℕ) (s : Text) → Lacks c s → before c s ≡ s
unfolding before
before-Lacks c [] h = refl
before-Lacks c (x ∷ s) h = let (a, b) = or_false (x == c) _ h in rw (a, before-Lacks c s b) refl

-- A name, as a `Host` spells it: no port, and no brackets.
abbrev pub IsName : Text → Type 0
IsName host = (Lacks b':' host) × ((Lacks b']' host) × (trim host ≡ host))

hostname_of-name : (host : Text) → IsName host → hostname_of host ≡ host
unfolding hostname_of
hostname_of-name host (colon, (bracket, e)) =
    ap (cut_at host) (rfind-Lacks b']' host bracket) ∙ before-Lacks b':' host colon

module _ (is_ip : Text → Bool) (allowed : List Text) (origins : List Origin) where
  value_allowed-name :
      (host : Text)
      → IsName host
      → value_allowed is_ip (some (some host)) allowed origins
        ≡ name_allowed is_ip (to_ascii_lowercase host) allowed origins
  unfolding value_allowed
  value_allowed-name host n =
      ap (λ h. name_allowed is_ip (to_ascii_lowercase h) allowed origins)
        (ap hostname_of n.1.1 ∙ hostname_of-name host n)

  value_allowed-port :
      (host port : Text)
      → IsName host
      → Lacks b']' (b':' ∷ port)
      → trim (host ++ b':' ∷ port) ≡ host ++ b':' ∷ port
      → value_allowed is_ip (some (some (host ++ b':' ∷ port))) allowed origins
        ≡ name_allowed is_ip (to_ascii_lowercase host) allowed origins
  unfolding value_allowed
  value_allowed-port host port n b e =
      ap (λ h. name_allowed is_ip (to_ascii_lowercase h) allowed origins)
        (ap hostname_of e
          ∙ hostname_of-port host port (any-append b']' host (b':' ∷ port) n.1.0 b) n.0)

  -- A request is answered on a name with a port exactly if it is answered on the name alone.
  pub host_allowed-port :
      (bare headers : Headers) (host port : Text)
      → bare (codes "host") ≡ some (some host)
      → headers (codes "host") ≡ some (some (host ++ b':' ∷ port))
      → IsName host
      → Lacks b']' (b':' ∷ port)
      → trim (host ++ b':' ∷ port) ≡ host ++ b':' ∷ port
      → host_allowed is_ip headers allowed origins ≡ host_allowed is_ip bare allowed origins
  unfolding host_allowed
  host_allowed-port bare headers host port p q n b e =
      (ap (λ v. value_allowed is_ip v allowed origins) q ∙ value_allowed-port host port n b e)
      ∙ sym (ap (λ v. value_allowed is_ip v allowed origins) p ∙ value_allowed-name host n)
