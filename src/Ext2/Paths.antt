-- ===== src/Ext2/Paths.antt =====
-- Paths of A4 as the C code takes them apart by `strtok(path, "/")`.
use csc369_uoft.Base.{
  ℕ, ◌≡◌, ◌≢◌, refl, Option, none, some, List, [], ◌∷◌, ◌++◌, ◌==◌, if◌then◌else◌, arith,
}

-- The character '/'
abbrev pub slash : ℕ
slash = 47

unfoldable pub extend : ℕ → List (List ℕ) → List (List ℕ)
extend c [] = (c ∷ []) ∷ []
extend c (t ∷ ts) = (c ∷ t) ∷ ts

-- The tokens of `c ∷ cs`, where `c` is no slash and `rest` are those of `cs`.
unfoldable pub begin_token : ℕ → List ℕ → List (List ℕ) → List (List ℕ)
unfolding extend
begin_token c [] rest = (c ∷ []) ∷ rest
begin_token c (d ∷ ds) rest = if d == slash then (c ∷ []) ∷ rest else extend c rest

-- What calls of `strtok` give one after another: the parts between slashes that are not empty.
unfoldable pub tokens : List ℕ → List (List ℕ)
unfolding begin_token
tokens [] = []
tokens (c ∷ cs) = let rest = tokens cs in if c == slash then rest else begin_token c cs rest

-- The last token, that of the file or directory itself.
unfoldable pub last_of : List (List ℕ) → Option (List ℕ)
last_of [] = none
last_of (t ∷ []) = some t
last_of (t ∷ u ∷ ts) = last_of (u ∷ ts)

-- A path that begins with a slash, from its parts.
unfoldable pub join : List (List ℕ) → List ℕ
join [] = []
join (t ∷ ts) = slash ∷ (t ++ join ts)

abbrev pub NoSlash : List ℕ → Type 0
NoSlash [] = Unit
NoSlash (c ∷ cs) = (c ≢ slash) × NoSlash cs

-- Parts as `strtok` gives them.
abbrev pub AreParts : List (List ℕ) → Type 0
AreParts [] = Unit
AreParts (t ∷ ts) = (t ≢ []) × NoSlash t × AreParts ts

tokens-part :
    (c : ℕ) (t : List ℕ) (ts : List (List ℕ))
    → c ≢ slash
    → NoSlash t
    → tokens (join ts) ≡ ts
    → tokens ((c ∷ t) ++ join ts) ≡ (c ∷ t) ∷ ts
unfolding tokens join
tokens-part c [] [] h n e = ground arith
tokens-part c [] (u ∷ us) h n e = ground (arith, e)
tokens-part c (d ∷ ds) ts h n e = ground (arith, tokens-part d ds ts n.0 n.1 e, n.0)

pub tokens-join : (ts : List (List ℕ)) → AreParts ts → tokens (join ts) ≡ ts
unfolding tokens join
tokens-join [] h = refl
tokens-join ([] ∷ ts) h = absurd (h.0 refl)
tokens-join ((c ∷ t) ∷ ts) h = tokens-part c t ts h.1.0 h.1.1 (tokens-join ts h.2)
