-- ===== src/Storage/Like/Contains.antt =====
-- The escaped pattern matches exactly the texts that hold the needle as it is written.
use mathlib.Core.List.{append_assoc}
use rustmail.Prelude.Text.{Text, lower_char}
use rustmail.Prelude.{
  ℕ, ◌≡◌, refl, ap, ◌∙◌, Bool, true, false, ◌&&◌, ◌==◌, [], ◌∷◌, ◌++◌, arith, if◌then◌else◌,
}
use rustmail.Storage.Like.{replace, backslash, escape_like, literal, anywhere, like}

-- The needle at the start of a text, and then `rest`.
abbrev pub begins : Text → (Text → Bool) → Text → Bool
begins [] rest s = rest s
begins (c ∷ n) rest s = literal c (begins n rest) s

abbrev pub holds_anything : Text → Bool
holds_anything s = true

-- The needle somewhere in a text.
abbrev pub contains : Text → Text → Bool
contains n s = anywhere (begins n holds_anything) s

-- What one character becomes.
abbrev hide : ℕ → Text
hide c =
    if c == backslash
    then backslash ∷ backslash ∷ []
    else if c == b'%'
    then backslash ∷ b'%' ∷ []
    else if c == b'_'
    then backslash ∷ b'_' ∷ []
    else c ∷ []

escape-cons : (c : ℕ) (s : Text) → escape_like (c ∷ s) ≡ hide c ++ escape_like s
unfolding escape_like replace
escape-cons c s = ground arith

like-hide : (c : ℕ) (p s : Text) → like false (hide c ++ p) s ≡ literal c (like false p) s
unfolding like
like-hide c p s = ground arith

literal-same :
    (c : ℕ) (f g : Text → Bool)
    → ((s : Text) → f s ≡ g s)
    → (s : Text) → literal c f s ≡ literal c g s
literal-same c f g h [] = refl
literal-same c f g h (x ∷ s) = ap (λ b. lower_char x == lower_char c && b) (h s)

anywhere-same :
    (f g : Text → Bool) → ((s : Text) → f s ≡ g s) → (s : Text) → anywhere f s ≡ anywhere g s
anywhere-same f g h [] = h []
anywhere-same f g h (x ∷ s) = rw (h (x ∷ s), anywhere-same f g h s) refl

begins-same :
    (n : Text) (f g : Text → Bool)
    → ((s : Text) → f s ≡ g s)
    → (s : Text) → begins n f s ≡ begins n g s
begins-same [] f g h s = h s
begins-same (c ∷ n) f g h s = literal-same c (begins n f) (begins n g) (begins-same n f g h) s

escape-nil : escape_like [] ≡ []
unfolding escape_like replace
escape-nil = refl

like-escape_like : (n p s : Text) → like false (escape_like n ++ p) s ≡ begins n (like false p) s
like-escape_like [] p s = rw escape-nil refl
like-escape_like (c ∷ n) p s =
    rw (escape-cons c n, append_assoc (hide c) (escape_like n) p)
      (like-hide c (escape_like n ++ p) s ∙ literal-same c _ _ (like-escape_like n p) s)

anything : (s : Text) → like false (b'%' ∷ []) s ≡ true
unfolding like
anything s = ends s
  where
    ends : (s : Text) → anywhere (like false []) s ≡ true
    ends [] = refl
    ends (x ∷ s) = ends s

like-percent : (p s : Text) → like false (b'%' ∷ p) s ≡ anywhere (like false p) s
unfolding like
like-percent p s = refl

-- Whatever wildcards, backslashes and other characters the needle holds, the pattern that is built
-- from it matches exactly the texts that hold the needle itself, whatever the case of ASCII letters.
pub like-contains :
    (needle text : Text)
    → like false (b'%' ∷ (escape_like needle ++ b'%' ∷ [])) text ≡ contains needle text
like-contains needle text =
    like-percent (escape_like needle ++ b'%' ∷ []) text
    ∙ anywhere-same _ (begins needle holds_anything)
        (λ s.
          like-escape_like needle (b'%' ∷ []) s ∙ begins-same needle _ holds_anything anything s)
        text
