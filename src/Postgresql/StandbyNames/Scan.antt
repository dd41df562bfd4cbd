-- ===== src/Postgresql/StandbyNames/Scan.antt =====
-- What the expression of sync.py matches in a written list of names.
use mathlib.Core.List.{append_assoc}
use otus_hightload.Prelude.{
  ℕ, suc, ◌-◌, Bool, true, false, not, ◌&&◌, ◌||◌, leb, ◌==◌, some, List, [], ◌∷◌, ◌++◌, ◌≡◌, refl,
  ◌∙◌, ap, arith, all, length, map, if◌then◌else◌, Bool-cases, inl, inr,
}
use otus_hightload.Prelude.Text.{Text, codes, lower_code, is_space}
use otus_hightload.Postgresql.NameTokens.{
  ident, num, space, dquot, comma, parenstart, parenend, punctuation, Token, token, is_digit,
  starts_ident, in_ident, span, begins, quoted, match_at, scan,
}
use otus_hightload.Postgresql.StandbyNames.{listed, double_quotes, is_plain_ident, quote_ident}

-- The text ends, or goes on with what separates names.
unfoldable pub stops : Text → Bool
stops [] = true
stops (c ∷ s) = (c == b',') || (c == b')')

pub scan-append : (s rest : Text) → scan (length s) (s ++ rest) ≡ scan 0 rest
unfolding scan
scan-append [] rest = refl
scan-append (c ∷ s) rest = scan-append s rest

pub span-append :
    (p : ℕ → Bool) (s rest : Text)
    → all p s ≡ true
    → (c : ℕ) (t : Text) → rest ≡ c ∷ t
    → p c ≡ false
    → span p (s ++ rest) ≡ s
unfolding span all
span-append p [] rest h c t e q = rw e (ground arith)
span-append p (d ∷ s) rest h c t e q =
    let ih = span-append p s rest (ground arith) c t e q in ground (arith, ih)

span_ident-append :
    (s rest : Text) → all in_ident s ≡ true → stops rest ≡ true → span in_ident (s ++ rest) ≡ s
unfolding span all stops in_ident
span_ident-append [] [] h q = refl
span_ident-append [] (c ∷ rest) h q = ground arith
span_ident-append (d ∷ s) rest h q =
    let ih = span_ident-append s rest (ground arith) q in ground (arith, ih)

-- A word of small letters is not completed by what comes after a name.
begins-append :
    (word s rest : Text)
    → all (λ w. leb b'a' w) word ≡ true
    → stops rest ≡ true
    → begins word (s ++ rest) ≡ begins word s
unfolding begins all stops lower_code
begins-append [] s rest h q = refl
begins-append (w ∷ word) [] [] h q = refl
begins-append (w ∷ word) [] (c ∷ rest) h q = ground arith
begins-append (w ∷ word) (c ∷ s) rest h q =
    let ih = begins-append word s rest (ground arith) q in ground (arith, ih)

quoted_plain :
    (c : ℕ) (t u : Text) → (c == b'"') ≡ false → quoted t ≡ some u → quoted (c ∷ t) ≡ some (c ∷ u)
unfolding quoted
quoted_plain c [] u e h = cc
quoted_plain c (d ∷ t) u e h = rw (e, h) refl

quoted_pair :
    (c : ℕ) (t u : Text)
    → (c == b'"') ≡ true
    → quoted t ≡ some u
    → quoted (c ∷ c ∷ t) ≡ some (c ∷ c ∷ u)
unfolding quoted
quoted_pair c t u e h = rw (e, h) refl

-- `quoted` on a doubled text and its closing quote
quoted-double_quotes :
    (s rest : Text)
    → stops rest ≡ true
    → quoted (double_quotes s ++ b'"' ∷ rest) ≡ some (double_quotes s ++ b'"' ∷ [])
unfolding quoted double_quotes stops
quoted-double_quotes [] [] q = refl
quoted-double_quotes [] (c ∷ rest) q = ground arith
quoted-double_quotes (c ∷ s) rest q =
    let ih = quoted-double_quotes s rest q in
    elim (Bool-cases (c == b'"')) [
      | inl e ↦ rw e (quoted_pair c (double_quotes s ++ b'"' ∷ rest) _ e ih)
      | inr e ↦ rw e (quoted_plain c (double_quotes s ++ b'"' ∷ rest) _ e ih)
    ]

-- A name is read as it is written: it needs quotes, or begins with no keyword.
unfoldable pub reads_back : Text → Bool
reads_back s =
    not (is_plain_ident s)
    || (all in_ident s && not (begins (codes "first") s) && not (begins (codes "any") s))

-- what a written name is matched as
unfoldable pub name_token : Text → Token
name_token s = token (if is_plain_ident s then ident else dquot) (quote_ident s)

match_ident :
    (c : ℕ) (s rest : Text)
    → starts_ident c ≡ true
    → all in_ident s ≡ true
    → begins (codes "first") (c ∷ s) ≡ false
    → begins (codes "any") (c ∷ s) ≡ false
    → stops rest ≡ true
    → match_at c (s ++ rest) ≡ token ident (c ∷ s)
unfolding match_at starts_ident is_space
match_ident c s rest hc hs hf ha q =
    let first = begins-append (codes "first") (c ∷ s) rest (unfold all in refl) q in
    let any = begins-append (codes "any") (c ∷ s) rest (unfold all in refl) q in
    let word = span_ident-append s rest hs q in
    let no_space : is_space c ≡ false = ground arith in
    rw (first ∙ hf, any ∙ ha, no_space, hc, word) refl

match_dquot :
    (s rest : Text)
    → stops rest ≡ true
    → match_at b'"' (double_quotes s ++ b'"' ∷ rest)
      ≡ token dquot (b'"' ∷ double_quotes s ++ b'"' ∷ [])
unfolding match_at begins lower_code is_space starts_ident
match_dquot s rest q = rw (quoted-double_quotes s rest q) refl

match_plain :
    (s rest : Text)
    → is_plain_ident s ≡ true
    → reads_back s ≡ true
    → stops rest ≡ true
    → (c : ℕ) × (t : Text) × (s ≡ c ∷ t) × (match_at c (t ++ rest) ≡ token ident s)
unfolding is_plain_ident reads_back all
match_plain [] rest p h q = absurd (ground arith)
match_plain (c ∷ t) rest p h q =
    (c, t, refl, match_ident c t rest (ground arith) (ground arith) (ground arith) (ground arith) q)

match_name :
    (s rest : Text)
    → reads_back s ≡ true
    → stops rest ≡ true
    → (c : ℕ) × (t : Text) × (quote_ident s ≡ c ∷ t) × (match_at c (t ++ rest) ≡ name_token s)
unfolding name_token quote_ident
match_name s rest h q = elim (Bool-cases (is_plain_ident s)) [
  | inl p ↦ rw p (match_plain s rest p h q)
  | inr p ↦ rw p (b'"', double_quotes s ++ b'"' ∷ [], refl, rw append_assoc (match_dquot s rest q))
]

text-name_token : (s : Text) → (name_token s).text ≡ quote_ident s
unfolding name_token
text-name_token s = refl

pub scan_match :
    (c : ℕ) (t rest : Text) (m : Token)
    → match_at c (t ++ rest) ≡ m
    → m.text ≡ c ∷ t
    → scan 0 (c ∷ t ++ rest) ≡ m ∷ scan 0 rest
unfolding scan
scan_match c t rest m e text =
    let length_lem : length m.text ≡ suc (length t) = ap length text in
    let len : length m.text - 1 ≡ length t = omega (arith, length_lem) in
    rw e (ap (λ ts. m ∷ ts) (rw len (scan-append t rest)))

-- A written name, followed by a separator, is one match.
pub scan-name :
    (s rest : Text)
    → reads_back s ≡ true
    → stops rest ≡ true
    → scan 0 (quote_ident s ++ rest) ≡ name_token s ∷ scan 0 rest
scan-name s rest h q =
    let (c, t, written, matched) = match_name s rest h q in
    rw written (scan_match c t rest (name_token s) matched (text-name_token s ∙ written))

match_comma : (s : Text) → match_at b',' s ≡ token comma (codes ",")
unfolding match_at begins lower_code is_space starts_ident punctuation
match_comma s = refl

pub match_parenend : (s : Text) → match_at b')' s ≡ token parenend (codes ")")
unfolding match_at begins lower_code is_space starts_ident punctuation
match_parenend s = refl

pub match_parenstart : (s : Text) → match_at b'(' s ≡ token parenstart (codes "(")
unfolding match_at begins lower_code is_space starts_ident punctuation
match_parenstart s = refl

pub match_space : (s : Text) → match_at b' ' (b'(' ∷ s) ≡ token space (codes " ")
unfolding match_at begins lower_code is_space starts_ident span
match_space s = refl

pub match_number :
    (c : ℕ) (s rest : Text)
    → is_digit c ≡ true
    → all is_digit s ≡ true
    → match_at c (s ++ b' ' ∷ rest) ≡ token num (c ∷ s)
unfolding match_at begins lower_code is_space starts_ident
match_number c s rest hc hs =
    let word = span-append is_digit s (b' ' ∷ rest) hs b' ' rest refl refl in ground (arith, word)

-- the matches of a written list
unfoldable pub listed_tokens : List Text → List Token
listed_tokens [] = []
listed_tokens (s ∷ []) = name_token s ∷ []
listed_tokens (s ∷ t ∷ rest) = name_token s ∷ token comma (codes ",") ∷ listed_tokens (t ∷ rest)

pub scan-listed :
    (names : List Text) (rest : Text)
    → all reads_back names ≡ true
    → stops rest ≡ true
    → scan 0 (listed (map quote_ident names) ++ rest) ≡ listed_tokens names ++ scan 0 rest
unfolding listed listed_tokens all
scan-listed [] rest h q = refl
scan-listed (s ∷ []) rest h q = scan-name s rest (ground arith) q
scan-listed (s ∷ t ∷ names) rest h q =
    let ih = scan-listed (t ∷ names) rest (ground arith) q in
    let after = listed (map quote_ident (t ∷ names)) ++ rest in
    let comma_first : scan 0 (b',' ∷ after) ≡ token comma (codes ",") ∷ scan 0 after =
      scan_match b',' [] after _ (match_comma after) refl in
    rw append_assoc (
      scan-name s (b',' ∷ after) (ground arith) (unfold stops in refl)
      ∙ ap (λ ts. name_token s ∷ ts) (comma_first ∙ ap (λ ts. token comma (codes ",") ∷ ts) ih))
