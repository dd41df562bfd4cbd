-- ===== src/Postgresql/Rewind/Verdict.antt =====
-- The verdict of `_check_timeline_and_lsn` of .patroni/patroni/postgresql/rewind.py.
use otus_hightload.Prelude.{
  arith, Bool-cases, inl, inr, Bool, true, false, not, some, List, ◌∷◌, ◌≡◌, refl,
}
use otus_hightload.Prelude.Int.{ℤ, pos, ltb_ℤ, eq_ℤ}
use otus_hightload.Prelude.Text.{Text}
use otus_hightload.Postgresql.History.{Line, parse_history}
use otus_hightload.Postgresql.Rewind.Local.{Server, local_timeline_lsn, get_checkpoint_end}
use otus_hightload.Postgresql.Rewind.Check.{
  Primary, RewindStatus, by_answer, by_history, asked, need_or_not, history_answer, compared,
  check_timeline_and_lsn, is_primary_role,
}
use otus_hightload.Postgresql.Rewind.Branch.{
  other_timeline, diverged_iff, above_all, on_branch, below, ascending,
}

second_timeline :
    (timeline primary_timeline : ℤ)
    → ltb_ℤ (pos 0) timeline ≡ true
    → ltb_ℤ primary_timeline timeline ≡ false
    → eq_ℤ timeline primary_timeline ≡ false
    → ltb_ℤ (pos 1) primary_timeline ≡ true
unfolding eq_ℤ
second_timeline timeline primary_timeline a b c = ground arith

-- The answer of the primary is compared with what its history says.
module _ (s : Server) (p : Primary) (state : RewindStatus) (r : Bool)
    (timeline lsn primary_timeline : ℤ) (text : Text) (line : Line) (rest : List Line)
    (identified : p.identify ≡ some (some primary_timeline)) where
  ahead_of :
      ltb_ℤ primary_timeline timeline ≡ true
      → below primary_timeline (line ∷ rest) ≡ true
      → by_answer s r timeline lsn state (asked p timeline)
        ≡ some (need_or_not (not (on_branch s r timeline lsn primary_timeline (line ∷ rest))))
  unfolding asked on_branch
  ahead_of ahead low =
      rw
        (
          identified,
          ahead,
          other_timeline primary_timeline timeline ahead,
          above_all r timeline lsn (get_checkpoint_end s timeline lsn) primary_timeline
              (line ∷ rest) ahead low,
        )
        (unfold by_answer in refl)

  same_as :
      ltb_ℤ primary_timeline timeline ≡ false
      → eq_ℤ timeline primary_timeline ≡ true
      → by_answer s r timeline lsn state (asked p timeline)
        ≡ some (need_or_not (not (on_branch s r timeline lsn primary_timeline (line ∷ rest))))
  unfolding asked on_branch
  same_as level same = rw (identified, level, same) (unfold by_answer in refl)

  behind :
      p.history ≡ some (some text)
      → parse_history text ≡ line ∷ rest
      → ascending (line ∷ rest) ≡ true
      → ltb_ℤ (pos 0) timeline ≡ true
      → ltb_ℤ primary_timeline timeline ≡ false
      → eq_ℤ timeline primary_timeline ≡ false
      → by_answer s r timeline lsn state (asked p timeline)
        ≡ some (need_or_not (not (on_branch s r timeline lsn primary_timeline (line ∷ rest))))
  unfolding asked on_branch
  behind told parsed up first level other =
      rw
        (
          identified,
          level,
          other,
          second_timeline timeline primary_timeline first level other,
          told,
        )
        (unfold by_answer history_answer by_history in
          rw
            (
              parsed,
              diverged_iff r timeline lsn (get_checkpoint_end s timeline lsn) (line ∷ rest) up,
            )
            refl)

  answered :
      p.history ≡ some (some text)
      → parse_history text ≡ line ∷ rest
      → ascending (line ∷ rest) ≡ true
      → below primary_timeline (line ∷ rest) ≡ true
      → ltb_ℤ (pos 0) timeline ≡ true
      → by_answer s r timeline lsn state (asked p timeline)
        ≡ some (need_or_not (not (on_branch s r timeline lsn primary_timeline (line ∷ rest))))
  answered told parsed up low first = elim (Bool-cases (ltb_ℤ primary_timeline timeline)) [
    | inl ahead ↦ ahead_of ahead low
    | inr level ↦ elim (Bool-cases (eq_ℤ timeline primary_timeline)) [
      | inl same ↦ same_as level same
      | inr other ↦ behind told parsed up first level other
    ]
  ]

  -- The verdict where the primary is reached, out of recovery and listed as a primary, and the lines of
  -- its history can be read, are in the order of their timelines and come before its own timeline.
  pub check-on_branch :
      local_timeline_lsn s
        ≡ record { in_recovery = some r; timeline = some timeline; lsn = some lsn }
      → is_primary_role p.role ≡ true
      → p.not_in_recovery ≡ true
      → p.history ≡ some (some text)
      → parse_history text ≡ line ∷ rest
      → ascending (line ∷ rest) ≡ true
      → below primary_timeline (line ∷ rest) ≡ true
      → ltb_ℤ (pos 0) timeline ≡ true
      → check_timeline_and_lsn s p state
        ≡ some (need_or_not (not (on_branch s r timeline lsn primary_timeline (line ∷ rest))))
  unfolding check_timeline_and_lsn compared
  check-on_branch known role out_of told parsed up low first =
      simp (known, role, out_of) (answered told parsed up low first)
