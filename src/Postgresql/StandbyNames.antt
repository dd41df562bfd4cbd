-- ===== src/Postgresql/StandbyNames.antt =====
-- `synchronous_standby_names` of PostgreSQL, as sync.py of .patroni/patroni/postgresql reads and
-- writes it.
pub mod Digits
pub mod Scan
pub mod Tokens
pub mod RoundTrip
pub mod Keywords
use otus_hightload.Postgresql.NameTokens.{
  Kind, kw_first, kw_any, space, ident, dquot, star, num, comma, parenstart, parenend, junk, Token,
  starts_ident, in_ident, tokens,
}
use otus_hightload.Prelude.{
  ℕ, ◌+◌, ◌*◌, ◌-◌, Bool, true, false, ◌&&◌, ◌||◌, ltb, ◌==◌, Option, none, some, List, [], ◌∷◌,
  ◌++◌, map, length, if◌then◌else◌,
}
use otus_hightload.Prelude.Int.{pos}
use otus_hightload.Prelude.Text.{Text, codes}
use otus_hightload.Py.{print_int}
use otus_hightload.Collections.NameSet.{NameSet, empty, add, contains, values}

pub data SyncType : Type 0 where
  off : SyncType
  priority : SyncType
  quorum : SyncType

pub record Ssn : Type 0 where
  pub sync_type : SyncType
  pub has_star : Bool
  pub num : ℕ
  pub members : NameSet

unfoldable pub empty_ssn : Ssn
empty_ssn = record { sync_type = off; has_star = false; num = 0; members = empty }

-- `int(text)` of digits, after the value `n`
unfoldable pub digits_value : ℕ → Text → ℕ
digits_value n [] = n
digits_value n (c ∷ s) = digits_value (n * 10 + (c - 48)) s

kind_code : Kind → ℕ
kind_code kw_first = 0
kind_code kw_any = 1
kind_code space = 2
kind_code ident = 3
kind_code dquot = 4
kind_code star = 5
kind_code num = 6
kind_code comma = 7
kind_code parenstart = 8
kind_code parenend = 9
kind_code junk = 10

unfoldable pub has_kind : Kind → Token → Bool
unfolding kind_code
has_kind k t = kind_code t.kind == kind_code k

-- `tokens[:-1]`, where the last one is a closing parenthesis
unfoldable pub before_parenend : List Token → Option (List Token)
before_parenend [] = none
before_parenend (t ∷ []) = if has_kind parenend t then some [] else none
before_parenend (t ∷ u ∷ rest) = elim (before_parenend (u ∷ rest)) [
  | none ↦ none
  | some ts ↦ some (t ∷ ts)
]

-- `sync_type`, `num` and `synclist`
enclosed : SyncType → Token → List Token → Option (SyncType × ℕ × List Token)
enclosed ty n rest = elim (before_parenend rest) [
  | none ↦ none
  | some ts ↦ some (ty, digits_value 0 n.text, ts)
]

with_keyword : List Token → Option (SyncType × ℕ × List Token)
with_keyword (t ∷ u ∷ v ∷ rest) =
    if has_kind num u && has_kind parenstart v
    then (if has_kind kw_any t
        then enclosed quorum u rest
        else if has_kind kw_first t
        then enclosed priority u rest
        else none)
    else none
with_keyword _ = none

with_number : List Token → Option (SyncType × ℕ × List Token)
with_number (t ∷ u ∷ rest) =
    if has_kind num t && has_kind parenstart u then enclosed priority t rest else none
with_number _ = none

unfoldable pub synclist : List Token → SyncType × ℕ × List Token
unfolding with_keyword with_number enclosed
synclist ts = elim (with_keyword ts) [
  | some r ↦ r
  | none ↦ elim (with_number ts) [ some r ↦ r | none ↦ (priority, 1, ts) ]
]

-- `s[:-1]`
drop_last : Text → Text
drop_last [] = []
drop_last (c ∷ []) = []
drop_last (c ∷ d ∷ s) = c ∷ drop_last (d ∷ s)

-- `s.replace('""', '"')`
unfoldable pub undouble : Text → Text
undouble [] = []
undouble (c ∷ []) = c ∷ []
undouble (c ∷ d ∷ s) =
    let pair = undouble s in
    let rest = undouble (d ∷ s) in if (c == b'"') && (d == b'"') then c ∷ pair else c ∷ rest

-- `a_value[1:-1].replace('""', '"')`
unfoldable pub unquote : Text → Text
unfolding drop_last
unquote [] = []
unquote (c ∷ s) = undouble (drop_last s)

-- the name that an even element of the list adds; `none` is the `ValueError`
name_of : Kind → Text → Option Text
name_of kw_first s = some s
name_of kw_any s = some s
name_of ident s = some s
name_of star s = some s
name_of dquot s = some (unquote s)
name_of _ s = none

-- the loop over `synclist`, at an odd or even place
unfoldable pub read : Bool → Ssn → List Token → Option Ssn
unfolding name_of
read odd r [] = some r
read true r (t ∷ []) = none
read true r (t ∷ u ∷ rest) = if has_kind comma t then read false r (u ∷ rest) else none
read false r (t ∷ rest) = elim (name_of t.kind t.text) [
  | none ↦ none
  | some v ↦
      read true (record r { members = add v r.members; has_star = r.has_star || has_kind star t })
        rest
]

parse_tokens : List Token → Option Ssn
parse_tokens [] = some empty_ssn
parse_tokens (t ∷ ts) =
    let (ty, n, list) = synclist (t ∷ ts) in
    read false (record { sync_type = ty; has_star = false; num = n; members = empty }) list

-- `none` is the `ValueError`
unfoldable pub parse_sync_standby_names : Text → Option Ssn
unfolding parse_tokens
parse_sync_standby_names value = parse_tokens (tokens value)

-- `[A-Za-z_0-9\$]*$`, where `$` is also before a newline at the end
ends_ident : Text → Bool
ends_ident [] = true
ends_ident (c ∷ []) = in_ident c || (c == 10)
ends_ident (c ∷ d ∷ s) = in_ident c && ends_ident (d ∷ s)

-- `SYNC_STANDBY_NAME_RE`
unfoldable pub is_plain_ident : Text → Bool
unfolding ends_ident
is_plain_ident [] = false
is_plain_ident (c ∷ s) = starts_ident c && ends_ident s

-- `s.replace('"', '""')`
unfoldable pub double_quotes : Text → Text
double_quotes [] = []
double_quotes (c ∷ s) = let rest = double_quotes s in if c == b'"' then c ∷ c ∷ rest else c ∷ rest

unfoldable pub quote_ident : Text → Text
quote_ident value = if is_plain_ident value then value else b'"' ∷ double_quotes value ++ b'"' ∷ []

-- `','.join(names)`
unfoldable pub listed : List Text → Text
listed [] = []
listed (s ∷ []) = s
listed (s ∷ t ∷ rest) = s ++ b',' ∷ listed (t ∷ rest)

-- `'{0} ({1})'.format(n, s)`
unfoldable pub numbered : ℕ → Text → Text
numbered n s = print_int (pos n) ++ (codes " (" ++ (s ++ codes ")"))

first_of : List Text → Option Text
first_of [] = none
first_of (s ∷ rest) = some s

-- `sync_param` of `set_synchronous_standby_names`
unfoldable pub sync_param : Bool → NameSet → Option Text
unfolding first_of
sync_param multiple sync =
    let names =
      if contains sync (codes "*") then codes "*" ∷ [] else map quote_ident (values sync) in
    if multiple && ltb 1 (length names)
    then some (numbered (length names) (listed names))
    else first_of names
