-- ===== src/Ledger/Patterns.antt =====
-- The regular expressions of internal/workledger/model.go and agentbinding.go, as tests on the code
-- points of a text. Go's `$` without (?m) is the end of the text.
use signal_plane.Base.{
  ℕ, suc, ◌-◌, String, Bool, true, false, ◌&&◌, ◌||◌, List, [], ◌∷◌, Option, none, some, leb, eqb,
  if◌then◌else◌, length, codes,
}

abbrev pub is_lower : ℕ → Bool
is_lower c = leb b'a' c && leb c b'z'

abbrev pub is_digit : ℕ → Bool
is_digit c = leb b'0' c && leb c b'9'

abbrev pub is_upper : ℕ → Bool
is_upper c = leb b'A' c && leb c b'Z'

-- [0-9a-f]
abbrev pub is_hex : ℕ → Bool
is_hex c = is_digit c || (leb b'a' c && leb c b'f')

abbrev pub is_alnum : ℕ → Bool
is_alnum c = is_upper c || is_lower c || is_digit c

-- [A-Za-z0-9._-]
abbrev pub is_name : ℕ → Bool
is_name c = is_alnum c || eqb c b'.' || eqb c b'_' || eqb c b'-'

unfoldable pub all_of : (ℕ → Bool) → List ℕ → Bool
all_of p [] = true
all_of p (c ∷ cs) = p c && all_of p cs

-- ^[first][rest]{0,127}$
unfoldable pub bounded : (ℕ → Bool) → (ℕ → Bool) → List ℕ → Bool
unfolding all_of
bounded first rest [] = false
bounded first rest (c ∷ cs) = first c && all_of rest cs && leb (length cs) 127

-- `identifierPattern`, ^[a-z][a-z0-9_.-]{0,127}$
unfoldable pub identifier_pattern : String → Bool
unfolding bounded
identifier_pattern s =
    bounded is_lower (λ c. is_lower c || is_digit c || eqb c b'_' || eqb c b'.' || eqb c b'-')
      (codes s)

-- `kebabIdentifier`, ^[a-z][a-z0-9-]{0,127}$
unfoldable pub kebab_identifier : String → Bool
unfolding bounded
kebab_identifier s = bounded is_lower (λ c. is_lower c || is_digit c || eqb c b'-') (codes s)

-- `snakeIdentifier`, ^[a-z][a-z0-9_]{0,127}$
unfoldable pub snake_identifier : String → Bool
unfolding bounded
snake_identifier s = bounded is_lower (λ c. is_lower c || is_digit c || eqb c b'_') (codes s)

-- One test for each character, and nothing else.
unfoldable pub shape : List (ℕ → Bool) → List ℕ → Bool
shape [] [] = true
shape [] (c ∷ cs) = false
shape (p ∷ ps) [] = false
shape (p ∷ ps) (c ∷ cs) = p c && shape ps cs

unfoldable pub times : ℕ → (ℕ → Bool) → List (ℕ → Bool) → List (ℕ → Bool)
times ℕ.zero p ps = ps
times (suc n) p ps = p ∷ times n p ps

unfoldable pub literally : List ℕ → List (ℕ → Bool) → List (ℕ → Bool)
literally [] ps = ps
literally (c ∷ cs) ps = (λ d. eqb d c) ∷ literally cs ps

-- `imageDigestFormat`, ^sha256:[0-9a-f]{64}$
unfoldable pub image_digest_format : String → Bool
unfolding shape times literally
image_digest_format s = shape (literally (codes "sha256:") (times 64 is_hex [])) (codes s)

-- ^[0-9a-f]{40}$
unfoldable pub commit_pattern : String → Bool
unfolding shape times
commit_pattern s = shape (times 40 is_hex []) (codes s)

-- `tagPattern`, ^v\d{4}\.\d{2}\.\d{2}-[0-9a-f]{7}$
unfoldable pub tag_pattern : String → Bool
unfolding shape times literally
tag_pattern s =
    shape
      (literally (codes "v") (
        times 4 is_digit (
          literally (codes ".") (
            times 2 is_digit (
              literally (codes ".")
                (times 2 is_digit (literally (codes "-") (times 7 is_hex []))))))))
      (codes s)

-- [A-Za-z0-9][A-Za-z0-9._-]*
unfoldable pub name_word : List ℕ → Bool
unfolding all_of
name_word [] = false
name_word (c ∷ cs) = is_alnum c && all_of is_name cs

-- The text before the first '/' and the text behind it.
unfoldable pub cut_slash : List ℕ → Option (List ℕ × List ℕ)
cut_slash [] = none
cut_slash (c ∷ cs) =
    if eqb c b'/'
    then some ([], cs)
    else elim (cut_slash cs) [ none ↦ none | some (before, behind) ↦ some (c ∷ before, behind) ]

-- `repoFormat`, ^[A-Za-z0-9][A-Za-z0-9._-]*/[A-Za-z0-9][A-Za-z0-9._-]*$: the class holds no '/',
-- so the first one separates the words.
unfoldable pub repo_format : String → Bool
unfolding cut_slash name_word
repo_format s = elim (cut_slash (codes s)) [
  | none ↦ false
  | some (owner, name) ↦ name_word owner && name_word name
]

unfoldable pub same_codes : List ℕ → List ℕ → Bool
same_codes [] [] = true
same_codes [] (d ∷ ds) = false
same_codes (c ∷ cs) [] = false
same_codes (c ∷ cs) (d ∷ ds) = eqb c d && same_codes cs ds

abbrev pub take : ℕ → List ℕ → List ℕ
take ℕ.zero cs = []
take (suc n) [] = []
take (suc n) (c ∷ cs) = c ∷ take n cs

abbrev pub drop : ℕ → List ℕ → List ℕ
drop ℕ.zero cs = cs
drop (suc n) [] = []
drop (suc n) (c ∷ cs) = drop n cs

-- ^[A-Za-z0-9][A-Za-z0-9._-]*SUFFIX$, for a suffix of literal characters.
unfoldable pub name_with_suffix : List ℕ → List ℕ → Bool
unfolding name_word same_codes
name_with_suffix suffix cs =
    let n = length cs - length suffix in name_word (take n cs) && same_codes (drop n cs) suffix

-- The characters of Unicode's White_Space, which strings.TrimSpace cuts off.
abbrev pub is_space : ℕ → Bool
is_space c =
    (leb 9 c && leb c 13)
    || eqb c 32
    || eqb c 0x85
    || eqb c 0xa0
    || eqb c 0x1680
    || (leb 0x2000 c && leb c 0x200a)
    || eqb c 0x2028
    || eqb c 0x2029
    || eqb c 0x202f
    || eqb c 0x205f
    || eqb c 0x3000

-- strings.TrimSpace(s) == ""
unfoldable pub is_blank : String → Bool
unfolding all_of
is_blank s = all_of is_space (codes s)
