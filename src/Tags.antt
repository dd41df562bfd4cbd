-- ===== src/Tags.antt =====
-- .patroni/patroni/tags.py: what the tags of a node say.
use otus_hightload.Prelude.{◌≡◌, arith, Bool, true, false, Option, none, some, not, if◌then◌else◌}
use otus_hightload.Prelude.Int.{ℤ, pos, ltb_ℤ}
use otus_hightload.Prelude.Text.{codes}
use otus_hightload.Py.{Value, null, dict, Fields, end, get, or_null, truthy}
use otus_hightload.Utils.{parse_int, parse_bool}

-- `v is not None`
abbrev pub present : Value → Bool
present null = false
present _ = true

-- A `tags` value that is no dictionary, which the program never writes, is read as empty.
abbrev pub as_dict : Value → Fields
as_dict (dict d) = d
as_dict _ = end

non_positive : Option ℤ → Bool
non_positive none = false
non_positive (some n) = not (ltb_ℤ (pos 0) n)

-- `nofailover` takes precedence over `failover_priority`
unfoldable pub nofailover : Fields → Bool
unfolding non_positive
nofailover tags =
    let from_tags = or_null (get (codes "nofailover") tags) in
    if present from_tags
    then truthy from_tags
    else non_positive (parse_int (or_null (get (codes "failover_priority") tags)))

or_one : Option ℤ → ℤ
or_one none = pos 1
or_one (some n) = n

unfoldable pub failover_priority : Fields → ℤ
unfolding or_one
failover_priority tags =
    let from_tags = or_null (get (codes "nofailover") tags) in
    if truthy from_tags
    then pos 0
    else or_one (parse_int (or_null (get (codes "failover_priority") tags)))

unfoldable pub nosync : Fields → Bool
nosync tags = truthy (or_null (get (codes "nosync") tags))

unfoldable pub noloadbalance : Fields → Bool
noloadbalance tags = truthy (or_null (get (codes "noloadbalance") tags))

or_false : Option Bool → Bool
or_false none = false
or_false (some b) = b

unfoldable pub nostream : Fields → Bool
unfolding or_false
nostream tags = or_false (parse_bool (or_null (get (codes "nostream") tags)))

-- Where `nofailover` is not set, a node has it exactly when its priority is not positive.
pub nofailover-eq-priority :
    (tags : Fields)
    → or_null (get (codes "nofailover") tags) ≡ null
    → nofailover tags ≡ not (ltb_ℤ (pos 0) (failover_priority tags))
unfolding nofailover failover_priority
nofailover-eq-priority tags h = ground arith
