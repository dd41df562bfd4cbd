-- ===== src/Postgresql/StandbyNames/Tokens.antt =====
-- How `parse_sync_standby_names` of sync.py reads the tokens of a written list of names.
use otus_hightload.Prelude.{
  ℕ, Bool, true, false, ◌||◌, ◌==◌, some, List, [], ◌∷◌, ◌++◌, ◌≡◌, refl, ◌∙◌, ap, Bool-cases, inl,
  inr,
}
use otus_hightload.Prelude.Text.{Text, codes}
use otus_hightload.Collections.NameSet.{add, add_all}
use otus_hightload.Postgresql.NameTokens.{
  star, comma, parenend, Token, token, tokens, scan, without_spaces, is_kind_space,
}
use otus_hightload.Postgresql.StandbyNames.{
  empty_ssn, Ssn, drop_last, undouble, unquote, double_quotes, is_plain_ident, quote_ident, name_of,
  has_kind, read, before_parenend, parse_tokens, parse_sync_standby_names, kind_code,
}
use otus_hightload.Postgresql.StandbyNames.Scan.{name_token, listed_tokens}

drop_last-append : (s : Text) (c : ℕ) → drop_last (s ++ c ∷ []) ≡ s
unfolding drop_last
drop_last-append [] c = refl
drop_last-append (d ∷ []) c = refl
drop_last-append (d ∷ e ∷ s) c = ap (λ t. d ∷ t) (drop_last-append (e ∷ s) c)

undouble_plain : (c : ℕ) (s : Text) → (c == b'"') ≡ false → undouble (c ∷ s) ≡ c ∷ undouble s
unfolding undouble
undouble_plain c [] e = refl
undouble_plain c (d ∷ s) e = rw e refl

undouble_pair : (c : ℕ) (s : Text) → (c == b'"') ≡ true → undouble (c ∷ c ∷ s) ≡ c ∷ undouble s
unfolding undouble
undouble_pair c s e = rw e refl

undouble-double_quotes : (s : Text) → undouble (double_quotes s) ≡ s
unfolding double_quotes
undouble-double_quotes [] = unfold undouble in refl
undouble-double_quotes (c ∷ s) =
    let ih = undouble-double_quotes s in
    elim (Bool-cases (c == b'"')) [
      | inl e ↦ rw e (undouble_pair c (double_quotes s) e ∙ ap (λ t. c ∷ t) ih)
      | inr e ↦ rw e (undouble_plain c (double_quotes s) e ∙ ap (λ t. c ∷ t) ih)
    ]

-- A quoted name is unquoted as it was.
unquote_quoted : (s : Text) → unquote (b'"' ∷ double_quotes s ++ b'"' ∷ []) ≡ s
unfolding unquote
unquote_quoted s = rw (drop_last-append (double_quotes s) b'"') (undouble-double_quotes s)

name_of-name_token : (s : Text) → name_of (name_token s).kind (name_token s).text ≡ some s
unfolding name_token quote_ident name_of
name_of-name_token s = elim (Bool-cases (is_plain_ident s)) [
  | inl p ↦ rw p refl
  | inr p ↦ rw p (ap some (unquote_quoted s))
]

not_star : (s : Text) → has_kind star (name_token s) ≡ false
unfolding name_token has_kind kind_code
not_star s = elim (Bool-cases (is_plain_ident s)) [ inl p ↦ rw p refl | inr p ↦ rw p refl ]

or_false : (b : Bool) → (b || false) ≡ b
or_false true = refl
or_false false = refl

read_token :
    (t : Token) (v : Text) (r : Ssn) (rest : List Token)
    → name_of t.kind t.text ≡ some v
    → has_kind star t ≡ false
    → read false r (t ∷ rest) ≡ read true (record r { members = add v r.members }) rest
unfolding read
read_token t v r rest h q =
    rw (h, read)
      (rw q (
        ap (λ b. read true (record r { members = add v r.members; has_star = b }) rest)
          (or_false r.has_star)))

read_name :
    (s : Text) (r : Ssn) (rest : List Token)
    → read false r (name_token s ∷ rest) ≡ read true (record r { members = add s r.members }) rest
read_name s r rest = read_token (name_token s) s r rest (name_of-name_token s) (not_star s)

listed_cons :
    (t : Text) (rest : List Text)
    → (ts : List Token) × (listed_tokens (t ∷ rest) ≡ name_token t ∷ ts)
unfolding listed_tokens
listed_cons t [] = ([], refl)
listed_cons t (u ∷ rest) = (_, refl)

read_comma :
    (r : Ssn) (t : Text) (rest : List Text)
    → read true r (token comma (codes ",") ∷ listed_tokens (t ∷ rest))
      ≡ read false r (listed_tokens (t ∷ rest))
unfolding has_kind kind_code
read_comma r t rest = let (ts, e) = listed_cons t rest in rw e (unfold read in refl)

pub read-listed_tokens :
    (names : List Text) (r : Ssn)
    → read false r (listed_tokens names) ≡ some (record r { members = add_all r.members names })
unfolding listed_tokens add_all
read-listed_tokens [] r = unfold read in refl
read-listed_tokens (s ∷ []) r = read_name s r [] ∙ (unfold read in refl)
read-listed_tokens (s ∷ t ∷ rest) r =
    let ih = read-listed_tokens (t ∷ rest) (record r { members = add s r.members }) in
    read_name s r _ ∙ read_comma (record r { members = add s r.members }) t rest ∙ ih

pub without_spaces-name :
    (s : Text) (rest : List Token)
    → without_spaces (name_token s ∷ rest) ≡ name_token s ∷ without_spaces rest
unfolding without_spaces is_kind_space name_token
without_spaces-name s rest = elim (Bool-cases (is_plain_ident s)) [
  | inl p ↦ rw p refl
  | inr p ↦ rw p refl
]

without_spaces-comma :
    (rest : List Token)
    → without_spaces (token comma (codes ",") ∷ rest)
      ≡ token comma (codes ",") ∷ without_spaces rest
unfolding without_spaces is_kind_space
without_spaces-comma rest = refl

pub without_spaces-listed :
    (names : List Text) (rest : List Token)
    → without_spaces (listed_tokens names ++ rest) ≡ listed_tokens names ++ without_spaces rest
unfolding listed_tokens
without_spaces-listed [] rest = refl
without_spaces-listed (s ∷ []) rest = without_spaces-name s rest
without_spaces-listed (s ∷ t ∷ names) rest =
    let ih = without_spaces-listed (t ∷ names) rest in
    without_spaces-name s _
    ∙ ap (λ ts. name_token s ∷ ts)
        (without_spaces-comma _ ∙ ap (λ ts. token comma (codes ",") ∷ ts) ih)

pub before_parenend-append :
    (ts : List Token) (t : Token)
    → has_kind parenend t ≡ true
    → before_parenend (ts ++ t ∷ []) ≡ some ts
unfolding before_parenend
before_parenend-append [] t h = rw h refl
before_parenend-append (u ∷ []) t h = rw (h, before_parenend) refl
before_parenend-append (u ∷ v ∷ ts) t h = rw (before_parenend-append (v ∷ ts) t h) refl

pub parse_empty : parse_sync_standby_names [] ≡ some empty_ssn
unfolding parse_sync_standby_names parse_tokens tokens scan without_spaces
parse_empty = refl
