-- ===== src/Postgresql/StandbyNames/Keywords.antt =====
-- Names that begin with a keyword: sync.py writes them without quotes, and its expression matches
-- the keyword alone, where PostgreSQL reads one identifier.
use otus_hightload.Prelude.{
  ◌∙◌, ap, ◌++◌, false, none, List, ℕ, zero, suc, ◌-◌, Bool, true, not, ◌&&◌, [], ◌∷◌, ◌≡◌, refl,
  arith, all, length,
}
use otus_hightload.Prelude.Text.{codes, lower_code, Text, is_space}
use otus_hightload.Postgresql.NameTokens.{
  take, kw_any, num, begins, token, tokens, without_spaces, comma, parenstart, Token, starts_ident,
  in_ident, match_at, scan, is_kind_space, punctuation,
}
use otus_hightload.Postgresql.StandbyNames.{
  is_plain_ident, quote_ident, name_of, Ssn, with_number, with_keyword, ends_ident,
  parse_sync_standby_names, parse_tokens, read, synclist, has_kind, kind_code, priority,
}

-- no separator, parenthesis or space
within_word : Token → Bool
within_word t = not (is_kind_space t.kind) && not (has_kind comma t) && not (has_kind parenstart t)

match_within_word : (c : ℕ) (s : Text) → in_ident c ≡ true → within_word (match_at c s) ≡ true
unfolding within_word match_at in_ident starts_ident is_space punctuation has_kind kind_code
    is_kind_space
match_within_word c s h = ground arith

-- What the characters of an identifier are matched as.
scan-within_word :
    (skip : ℕ) (s : Text) → all in_ident s ≡ true → all within_word (scan skip s) ≡ true
unfolding scan all
scan-within_word skip [] h = refl
scan-within_word (suc skip) (c ∷ s) h = scan-within_word skip s (ground arith)
scan-within_word zero (c ∷ s) h =
    let t = match_at c s in
    ground (
      arith,
      scan-within_word (length t.text - 1) s (ground arith),
      match_within_word c s (ground arith),
    )

without_spaces_words : (ts : List Token) → all within_word ts ≡ true → without_spaces ts ≡ ts
unfolding without_spaces all within_word
without_spaces_words [] h = refl
without_spaces_words (t ∷ ts) h =
    let ih = without_spaces_words ts (ground arith) in ground (arith, ih)

no_list :
    (t u : Token) (ts : List Token)
    → all within_word (u ∷ ts) ≡ true
    → has_kind num t ≡ false
    → synclist (t ∷ u ∷ ts) ≡ (priority, 1, t ∷ u ∷ ts)
unfolding synclist with_keyword with_number all within_word
no_list t u [] h q = ground arith
no_list t u (v ∷ ts) h q = ground arith

not_comma :
    (u : Token) (ts : List Token) (r : Ssn)
    → all within_word (u ∷ ts) ≡ true
    → read true r (u ∷ ts) ≡ none
unfolding read all within_word
not_comma u [] r h = refl
not_comma u (v ∷ ts) r h = ground arith

words_unreadable :
    (s : Text) (u : Token) (ts : List Token)
    → all within_word (u ∷ ts) ≡ true
    → parse_tokens (token kw_any s ∷ u ∷ ts) ≡ none
unfolding parse_tokens
words_unreadable s u ts h =
    rw (no_list (token kw_any s) u ts h (unfold has_kind kind_code in refl))
      (unfold read name_of in not_comma u ts _ h)

ends_ident_of_all : (s : Text) → all in_ident s ≡ true → ends_ident s ≡ true
unfolding ends_ident all
ends_ident_of_all [] h = refl
ends_ident_of_all (c ∷ []) h = ground arith
ends_ident_of_all (c ∷ d ∷ s) h =
    let ih = ends_ident_of_all (d ∷ s) (ground arith) in ground (arith, ih)

scan_cons : (c : ℕ) (w : Text) → (u : Token) × (ts : List Token) × (scan 0 (c ∷ w) ≡ u ∷ ts)
unfolding scan
scan_cons c w = (match_at c w, _, refl)

scan_any :
    (c : ℕ) (w : Text) → scan 0 (codes "any" ++ c ∷ w) ≡ token kw_any (codes "any") ∷ scan 0 (c ∷ w)
unfolding scan match_at begins lower_code take
scan_any c w = refl

without_spaces_any :
    (ts : List Token)
    → without_spaces (token kw_any (codes "any") ∷ ts)
      ≡ token kw_any (codes "any") ∷ without_spaces ts
unfolding without_spaces is_kind_space
without_spaces_any ts = refl

tokens_any :
    (c : ℕ) (w : Text) (u : Token) (ts : List Token)
    → scan 0 (c ∷ w) ≡ u ∷ ts
    → all within_word (u ∷ ts) ≡ true
    → tokens (codes "any" ++ c ∷ w) ≡ token kw_any (codes "any") ∷ u ∷ ts
unfolding tokens
tokens_any c w u ts e h =
    let kw = token kw_any (codes "any") in
    ap without_spaces (scan_any c w ∙ ap (λ rest. kw ∷ rest) e)
    ∙ without_spaces_any (u ∷ ts)
    ∙ ap (λ rest. kw ∷ rest) (without_spaces_words (u ∷ ts) h)

-- A name that is `any` and one or more further characters of an identifier is written without
-- quotes and is then refused by the parser.
pub keyword_prefix_unreadable :
    (c : ℕ) (w : Text)
    → all in_ident (c ∷ w) ≡ true
    → (quote_ident (codes "any" ++ c ∷ w) ≡ codes "any" ++ c ∷ w)
      × (parse_sync_standby_names (codes "any" ++ c ∷ w) ≡ none)
unfolding parse_sync_standby_names quote_ident is_plain_ident
keyword_prefix_unreadable c w h =
    let plain = ends_ident_of_all (codes "ny" ++ c ∷ w) (unfold all in_ident in h) in
    let (u, ts, e) = scan_cons c w in
    let words = rw e at (scan-within_word 0 (c ∷ w) h) in
    (
      rw plain (unfold starts_ident in refl),
      ap parse_tokens (tokens_any c w u ts e words) ∙ words_unreadable (codes "any") u ts words,
    )
