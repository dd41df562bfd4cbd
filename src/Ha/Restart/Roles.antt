-- ===== src/Ha/Restart/Roles.antt =====
-- The role in `restart_matches` of .patroni/patroni/ha.py.
use otus_hightload.Prelude.{Bool, false, Option, none, some, ◌≡◌, refl, inl, inr, ◌⊎◌}
use otus_hightload.Prelude.Text.{codes, text_eq}
use otus_hightload.Ha.Restart.{
  PgRole, master, role_text, Filters, Instance, matches_of, version_mismatch, restart_matches,
}

primary_no_role : (r : PgRole) → text_eq (codes "primary") (role_text r) ≡ false
unfolding text_eq role_text
primary_no_role master = refl
primary_no_role r = refl

-- A primary has the role `master`: a filter for the role `primary` matches no node.
pub primary_never_matches :
    (i : Instance) (f : Filters)
    → f.role ≡ codes "primary"
    → (restart_matches i f ≡ none) ⊎ (restart_matches i f ≡ some false)
unfolding restart_matches matches_of
primary_never_matches i f h = go (version_mismatch i f.postgres_version)
  where
    go : (m : Option Bool) → (matches_of i f m ≡ none) ⊎ (matches_of i f m ≡ some false)
    go none = inl refl
    go (some mismatch) = inr (rw (h, primary_no_role i.role))
