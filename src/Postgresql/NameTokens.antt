-- ===== src/Postgresql/NameTokens.antt =====
-- The tokens of `synchronous_standby_names`: `SYNC_REP_PARSER_RE` of sync.py in
-- .patroni/patroni/postgresql. `[^"]`, `\s` and `\d` are those of ASCII.
use otus_hightload.Prelude.{
  ℕ, zero, suc, ◌-◌, Bool, true, false, ◌&&◌, ◌||◌, leb, ◌==◌, Option, none, some, List, [], ◌∷◌,
  length, if◌then◌else◌,
}
use otus_hightload.Prelude.Text.{Text, codes, is_space, lower_code}

-- the groups of `SYNC_REP_PARSER_RE`
pub data Kind : Type 0 where
  kw_first : Kind
  kw_any : Kind
  space : Kind
  ident : Kind
  dquot : Kind
  star : Kind
  num : Kind
  comma : Kind
  parenstart : Kind
  parenend : Kind
  junk : Kind

pub record Token : Type 0 where
  pub kind : Kind
  pub text : Text

abbrev pub is_letter : ℕ → Bool
is_letter c = (leb b'a' c && leb c b'z') || (leb b'A' c && leb c b'Z')

abbrev pub is_digit : ℕ → Bool
is_digit c = leb b'0' c && leb c b'9'

-- `[A-Za-z_]` and `[A-Za-z_0-9\$]`
unfoldable pub starts_ident : ℕ → Bool
starts_ident c = is_letter c || (c == b'_')

unfoldable pub in_ident : ℕ → Bool
in_ident c = is_letter c || (c == b'_') || is_digit c || (c == b'$')

-- the longest prefix of characters that pass
unfoldable pub span : (ℕ → Bool) → Text → Text
span p [] = []
span p (c ∷ s) = let rest = span p s in if p c then c ∷ rest else []

-- begins with the letters of a word in lower case, in any case
unfoldable pub begins : Text → Text → Bool
begins [] s = true
begins (w ∷ word) [] = false
begins (w ∷ word) (c ∷ s) = (lower_code c == w) && begins word s

unfoldable pub take : ℕ → Text → Text
take zero s = []
take (suc n) [] = []
take (suc n) (c ∷ s) = c ∷ take n s

-- `(?: [^"]+ | "" )* "` after the opening quote: the longest match
unfoldable pub quoted : Text → Option Text
quoted [] = none
quoted (c ∷ []) = if c == b'"' then some (c ∷ []) else none
quoted (c ∷ d ∷ s) =
    let pair = quoted s in
    let rest = quoted (d ∷ s) in
    if c == b'"'
    then (if d == b'"'
        then elim pair [ none ↦ some (c ∷ []) | some t ↦ some (c ∷ d ∷ t) ]
        else some (c ∷ []))
    else elim rest [ none ↦ none | some t ↦ some (c ∷ t) ]

abbrev pub token : Kind → Text → Token
token k s = record { kind = k; text = s }

unfoldable pub punctuation : ℕ → Kind
punctuation c =
    if c == b'*'
    then star
    else if c == b','
    then comma
    else if c == b'('
    then parenstart
    else if c == b')'
    then parenend
    else junk

-- one match of the expression, at the character `c`: its alternatives in their order
unfoldable pub match_at : ℕ → Text → Token
unfolding punctuation
match_at c s =
    if begins (codes "first") (c ∷ s)
    then token kw_first (take 5 (c ∷ s))
    else if begins (codes "any") (c ∷ s)
    then token kw_any (take 3 (c ∷ s))
    else if is_space c
    then token space (c ∷ span is_space s)
    else if starts_ident c
    then token ident (c ∷ span in_ident s)
    else if is_digit c
    then token num (c ∷ span is_digit s)
    else if c == b'"'
    then elim (quoted s) [ none ↦ token junk (c ∷ []) | some t ↦ token dquot (c ∷ t) ]
    else token (punctuation c) (c ∷ [])

-- `finditer` after `skip` more characters of the last match
unfoldable pub scan : ℕ → Text → List Token
scan skip [] = []
scan (suc skip) (c ∷ s) = scan skip s
scan zero (c ∷ s) = let t = match_at c s in t ∷ scan (length t.text - 1) s

unfoldable pub is_kind_space : Kind → Bool
is_kind_space space = true
is_kind_space _ = false

unfoldable pub without_spaces : List Token → List Token
without_spaces [] = []
without_spaces (t ∷ rest) =
    let later = without_spaces rest in if is_kind_space t.kind then later else t ∷ later

unfoldable pub tokens : Text → List Token
unfolding without_spaces is_kind_space
tokens value = without_spaces (scan 0 value)
