-- ===== src/Postgresql/StandbyNames/RoundTrip.antt =====
-- `set_synchronous_standby_names` writes what `parse_sync_standby_names` reads, but for names that
-- begin with a keyword.
use mathlib.Core.List.{append-nil}
use otus_hightload.Prelude.{
  ℕ, suc, ◌<◌, true, false, ltb, Option, none, some, List, [], ◌∷◌, ◌++◌, ◌≡◌, refl, sym, ◌∙◌, ap,
  arith, all, length, map, if◌then◌else◌,
}
use otus_hightload.Prelude.Int.{pos}
use otus_hightload.Prelude.Text.{Text, codes}
use otus_hightload.Py.{print_int}
use otus_hightload.Collections.NameSet.{NameSet, empty, from_list, contains, values}
use otus_hightload.Collections.NameSet.Laws.{IsValid, contains-from_list, contains-values}
use otus_hightload.Postgresql.NameTokens.{
  num, parenstart, parenend, space, Token, token, tokens, scan, without_spaces, is_kind_space,
}
use otus_hightload.Postgresql.StandbyNames.{
  SyncType, priority, Ssn, quote_ident, has_kind, before_parenend, enclosed, with_keyword,
  with_number, synclist, parse_tokens, parse_sync_standby_names, listed, numbered, first_of,
  sync_param, digits_value, kind_code,
}
use otus_hightload.Postgresql.StandbyNames.Digits.{value-print_int, print_int-digits}
use otus_hightload.Postgresql.StandbyNames.Tokens.{
  without_spaces-name, without_spaces-listed, read-listed_tokens, before_parenend-append,
}
use otus_hightload.Postgresql.StandbyNames.Scan.{
  reads_back, name_token, listed_tokens, scan-listed, stops, scan_match, match_number, match_space,
  match_parenstart, match_parenend, scan-name,
}

-- The tokens of a numbered list.
without_spaces-numbered :
    (x y z : Text) (ts : List Token)
    → without_spaces (token num x ∷ token space y ∷ token parenstart z ∷ ts)
      ≡ token num x ∷ token parenstart z ∷ without_spaces ts
unfolding without_spaces is_kind_space
without_spaces-numbered x y z ts = refl

tokens-numbered :
    (n : ℕ) (names : List Text)
    → all reads_back names ≡ true
    → tokens (numbered n (listed (map quote_ident names)))
      ≡ token num (print_int (pos n)) ∷ token parenstart (codes "(") ∷ listed_tokens names
        ++ token parenend (codes ")") ∷ []
unfolding tokens numbered scan without_spaces is_kind_space
tokens-numbered n names h =
    let (c, s, digits, hc, hs) = print_int-digits n in
    let list = listed (map quote_ident names) in
    let inner =
      scan-listed names (codes ")") h (unfold stops in refl)
      ∙ ap (λ ts. listed_tokens names ++ ts) (scan_match b')' [] [] _ (match_parenend []) refl) in
    let opened =
      scan_match b'(' [] (list ++ codes ")") _ (match_parenstart _) refl
      ∙ ap (λ ts. token parenstart (codes "(") ∷ ts) inner in
    let spaced =
      scan_match b' ' [] (b'(' ∷ list ++ codes ")") _ (match_space _) refl
      ∙ ap (λ ts. token space (codes " ") ∷ ts) opened in
    let number =
      scan_match c s (b' ' ∷ b'(' ∷ list ++ codes ")") _ (match_number c s _ hc hs) refl
      ∙ ap (λ ts. token num (c ∷ s) ∷ ts) spaced in
    rw digits (
      ap without_spaces number
      ∙ without_spaces-numbered (c ∷ s) (codes " ") (codes "(")
          (listed_tokens names ++ token parenend (codes ")") ∷ [])
      ∙ ap (λ ts. token num (c ∷ s) ∷ token parenstart (codes "(") ∷ ts)
          (without_spaces-listed names (token parenend (codes ")") ∷ [])))

no_keyword :
    (x y : Text) (ts : List Token) → with_keyword (token num x ∷ token parenstart y ∷ ts) ≡ none
unfolding with_keyword has_kind kind_code
no_keyword x y [] = refl
no_keyword x y (t ∷ ts) = refl

by_number :
    (x y : Text) (ts : List Token)
    → with_number (token num x ∷ token parenstart y ∷ ts) ≡ enclosed priority (token num x) ts
unfolding with_number has_kind kind_code
by_number x y ts = refl

enclosed-some :
    (t : Token) (ts inner : List Token)
    → before_parenend ts ≡ some inner
    → enclosed priority t ts ≡ some (priority, digits_value 0 t.text, inner)
unfolding enclosed
enclosed-some t ts inner h = rw (h, enclosed) refl

synclist_of_number :
    (ts : List Token) (r : SyncType × ℕ × List Token)
    → with_keyword ts ≡ none
    → with_number ts ≡ some r
    → synclist ts ≡ r
unfolding synclist
synclist_of_number ts r k n = rw (k, synclist) (rw n refl)

-- the numbered list, taken apart
synclist-numbered :
    (n : ℕ) (names : List Text)
    → synclist (
        token num (print_int (pos n)) ∷ token parenstart (codes "(") ∷ listed_tokens names
        ++ token parenend (codes ")") ∷ [])
      ≡ (priority, n, listed_tokens names)
synclist-numbered n names =
    let ts = listed_tokens names ++ token parenend (codes ")") ∷ [] in
    let digits = print_int (pos n) in
    let inner =
      before_parenend-append (listed_tokens names) (token parenend (codes ")"))
        (unfold has_kind kind_code in refl) in
    synclist_of_number _ _ (no_keyword digits (codes "(") ts) (
      by_number digits (codes "(") ts
      ∙ enclosed-some (token num digits) ts _ inner
      ∙ ap (λ m. some (priority, m, listed_tokens names)) (value-print_int n))

parse-numbered :
    (n : ℕ) (names : List Text)
    → all reads_back names ≡ true
    → parse_sync_standby_names (numbered n (listed (map quote_ident names)))
      ≡ some (record { sync_type = priority; has_star = false; num = n; members = from_list names })
unfolding parse_sync_standby_names parse_tokens from_list
parse-numbered n names h =
    rw (tokens-numbered n names h, synclist-numbered n names)
      (read-listed_tokens names
        (record { sync_type = priority; has_star = false; num = n; members = empty }))

tokens-name : (s : Text) → reads_back s ≡ true → tokens (quote_ident s) ≡ name_token s ∷ []
unfolding tokens scan
tokens-name s h =
    let one = scan-name s [] h (unfold stops in refl) in
    rw (sym (append-nil (quote_ident s)), one) (without_spaces-name s [])

parse-name :
    (s : Text)
    → reads_back s ≡ true
    → parse_sync_standby_names (quote_ident s)
      ≡ some
          (record { sync_type = priority; has_star = false; num = 1; members = from_list (s ∷ []) })
unfolding parse_sync_standby_names parse_tokens synclist with_keyword with_number from_list
    listed_tokens
parse-name s h = rw (tokens-name s h) (
    read-listed_tokens (s ∷ [])
      (record { sync_type = priority; has_star = false; num = 1; members = empty }))

length-quoted : (names : List Text) → length (map quote_ident names) ≡ length names
length-quoted [] = refl
length-quoted (s ∷ rest) = ap suc (length-quoted rest)

-- what is written of some names
written : List Text → Option Text
written names =
    let quoted_names = map quote_ident names in
    if ltb 1 (length quoted_names)
    then some (numbered (length quoted_names) (listed quoted_names))
    else first_of quoted_names

parse-written :
    (names : List Text)
    → all reads_back names ≡ true
    → 0 < length names
    → (param : Text) × (written names ≡ some param)
      × (parse_sync_standby_names param
          ≡ some (record {
            sync_type = priority;
            has_star = false;
            num = length names;
            members = from_list names;
          }))
unfolding written first_of all
parse-written [] h n = absurd (omega arith)
parse-written (s ∷ []) h n = (quote_ident s, refl, parse-name s (ground arith))
parse-written (s ∷ t ∷ rest) h n =
    let names = s ∷ t ∷ rest in
    let many : ltb 1 (length (map quote_ident names)) ≡ true = ground arith in
    (
      numbered (length names) (listed (map quote_ident names)),
      rw many (rw (length-quoted rest) refl),
      parse-numbered (length names) names h,
    )

-- What is written of a set, where several synchronous standbys are supported, is read as a list
-- that waits for all of its names, if it has one, `*` is none of them, and each one either needs
-- quotes or is an identifier that begins with no keyword.
pub parse-sync_param :
    (sync : NameSet)
    → IsValid sync
    → contains sync (codes "*") ≡ false
    → all reads_back (values sync) ≡ true
    → 0 < length (values sync)
    → (param : Text) × (r : Ssn) × (sync_param true sync ≡ some param)
      × (parse_sync_standby_names param ≡ some r)
      × (r.num ≡ length (values sync))
      × ((w : Text) → contains r.members w ≡ contains sync w)
unfolding sync_param written
parse-sync_param sync valid no_star plain some_names =
    let (param, e, parsed) = parse-written (values sync) plain some_names in
    (
      param,
      _,
      rw no_star e,
      parsed,
      refl,
      λ w. contains-from_list (values sync) w ∙ sym (contains-values sync w valid),
    )
