-- ===== src/Postgresql/Rewind/Owner.antt =====
-- The history of a primary as a function from positions of the WAL into timelines, and what
-- `_check_timeline_and_lsn` of .patroni/patroni/postgresql/rewind.py makes of it.
use otus_hightload.Prelude.{
  any, arith, ◌⊎◌, Bool-cases, inl, inr, all, Bool, true, false, not, ◌&&◌, ◌||◌, some, List, [],
  ◌∷◌, if◌then◌else◌, ◌≡◌, ◌⊎◌, ap, refl, ◌∙◌, any, arith,
}
use otus_hightload.Prelude.Int.{ℤ, pos, ltb_ℤ, eq_ℤ}
use otus_hightload.Prelude.Text.{Text}
use otus_hightload.Postgresql.History.{Line, parse_history}
use otus_hightload.Postgresql.Rewind.Local.{Server, local_timeline_lsn, get_checkpoint_end}
use otus_hightload.Postgresql.Rewind.Check.{
  Primary, RewindStatus, need_or_not, check_timeline_and_lsn, is_primary_role,
}
use otus_hightload.Postgresql.Rewind.Branch.{
  is_ancestor, shares, ancestor_cons, later_timelines, before_timelines, head_later,
  earlier_timeline, ltb_ℤ_trans, on_branch, below, ascending,
}
use otus_hightload.Postgresql.Rewind.Verdict.{check-on_branch}

-- the timeline whose WAL a primary has at a position: each line of the history ends a timeline, and
-- the last one goes on
unfoldable pub timeline_at : ℤ → List Line → ℤ → ℤ
timeline_at primary_timeline [] lsn = primary_timeline
timeline_at primary_timeline (line ∷ rest) lsn =
    let later = timeline_at primary_timeline rest lsn in
    if ltb_ℤ line.switchpoint lsn then later else line.timeline

-- A position on a timeline is beyond the ends of the earlier ones.
unfoldable pub beyond : ℤ → ℤ → List Line → Bool
beyond timeline lsn = all (λ line. not (ltb_ℤ line.timeline timeline) || ltb_ℤ line.switchpoint lsn)

eq_ℤ_comm : (a b : ℤ) → eq_ℤ a b ≡ eq_ℤ b a
unfolding eq_ℤ
eq_ℤ_comm a b = ground arith

from_here : (a b : ℤ) → ltb_ℤ a b ≡ false → eq_ℤ a b ≡ false → ltb_ℤ b a ≡ true
unfolding eq_ℤ
from_here a b h k = ground arith

not_before :
    (timeline lsn : ℤ) (line : Line) (rest : List Line)
    → beyond timeline lsn (line ∷ rest) ≡ true
    → (beyond timeline lsn rest ≡ true)
      × ((ltb_ℤ line.timeline timeline ≡ false) ⊎ (ltb_ℤ line.switchpoint lsn ≡ true))
unfolding beyond all
not_before timeline lsn line rest h = (ground arith, ground arith)

accepted : Bool → ℤ → ℤ → ℤ → ℤ → List Line → Bool
accepted r timeline lsn e primary_timeline lines =
    eq_ℤ timeline primary_timeline || is_ancestor r timeline lsn e lines

accepted_cons :
    (timeline lsn e p : ℤ) (line : Line) (rest : List Line)
    → accepted true timeline lsn e p (line ∷ rest)
      ≡ eq_ℤ timeline p
        || (eq_ℤ line.timeline timeline && not (ltb_ℤ line.switchpoint lsn)
            || is_ancestor true timeline lsn e rest)
unfolding accepted
accepted_cons timeline lsn e p line rest =
    rw (ancestor_cons true timeline lsn e line rest) (unfold shares in refl)

-- the position is on the timeline of a line, or on a later one
passed_of :
    (timeline lsn e p : ℤ) (line : Line) (rest : List Line)
    → ltb_ℤ line.switchpoint lsn ≡ true
    → accepted true timeline lsn e p (line ∷ rest) ≡ accepted true timeline lsn e p rest
passed_of timeline lsn e p line rest passed =
    rw (accepted_cons timeline lsn e p line rest, passed) (unfold accepted in ground arith)

kept_of :
    (timeline lsn e p : ℤ) (line : Line) (rest : List Line)
    → ltb_ℤ line.switchpoint lsn ≡ false
    → eq_ℤ line.timeline timeline ≡ true
    → accepted true timeline lsn e p (line ∷ rest) ≡ true
kept_of timeline lsn e p line rest kept same =
    rw (accepted_cons timeline lsn e p line rest, kept, same) (ground arith)

ended_of :
    (timeline lsn e p : ℤ) (line : Line) (rest : List Line)
    → eq_ℤ line.timeline timeline ≡ false
    → ltb_ℤ timeline line.timeline ≡ true
    → ltb_ℤ line.timeline p ≡ true
    → all (λ next. ltb_ℤ line.timeline next.timeline) rest ≡ true
    → accepted true timeline lsn e p (line ∷ rest) ≡ false
ended_of timeline lsn e p line rest other later under first =
    rw
      (
        accepted_cons timeline lsn e p line rest,
        other,
        earlier_timeline timeline p (ltb_ℤ_trans timeline line.timeline p later under),
        later_timelines true timeline lsn e rest
            (before_timelines timeline line.timeline rest later first),
      )
      refl

earlier_or_passed :
    (timeline lsn : ℤ) (line : Line)
    → (ltb_ℤ line.timeline timeline ≡ false) ⊎ (ltb_ℤ line.switchpoint lsn ≡ true)
    → ltb_ℤ line.switchpoint lsn ≡ false
    → ltb_ℤ line.timeline timeline ≡ false
earlier_or_passed timeline lsn line (inl h) kept = h
earlier_or_passed timeline lsn line (inr h) kept = absurd (cc (h, kept))

owner_of :
    (timeline lsn e primary_timeline : ℤ) (lines : List Line)
    → ascending lines ≡ true
    → below primary_timeline lines ≡ true
    → beyond timeline lsn lines ≡ true
    → accepted true timeline lsn e primary_timeline lines
      ≡ eq_ℤ (timeline_at primary_timeline lines lsn) timeline
unfolding accepted timeline_at
owner_of timeline lsn e p [] up low far =
    rw (eq_ℤ_comm p timeline) (unfold is_ancestor any in ground arith)
owner_of timeline lsn e p (line ∷ rest) up low far =
    let (first, up') =
      head_later (all (λ next. ltb_ℤ line.timeline next.timeline) rest) (ascending rest)
        (unfold ascending in up) in
    let (under, low') =
      head_later (ltb_ℤ line.timeline p) (all (λ next. ltb_ℤ next.timeline p) rest)
        (unfold below all in low) in
    let (far', here) = not_before timeline lsn line rest far in
    elim (Bool-cases (ltb_ℤ line.switchpoint lsn)) [
      | inl passed ↦
          rw (passed_of timeline lsn e p line rest passed, passed)
            (owner_of timeline lsn e p rest up' (unfold below in low') far')
      | inr kept ↦ elim (Bool-cases (eq_ℤ line.timeline timeline)) [
        | inl same ↦ rw (kept_of timeline lsn e p line rest kept same, kept, same) refl
        | inr other ↦
            let later =
              from_here line.timeline timeline (earlier_or_passed timeline lsn line here kept)
                other in
            rw (ended_of timeline lsn e p line rest other later under first, kept, other) refl
      ]
    ]

-- A replica that knows its timeline, which is positive, and its position, which is beyond the ends of
-- the earlier timelines, asks for a rewind exactly when the history of the primary has another
-- timeline at that position, where the primary is reached, out of recovery and listed as a primary,
-- and the lines of its history can be read, are in the order of their timelines and come before its
-- own timeline.
pub check-timeline_at :
    (s : Server) (p : Primary) (state : RewindStatus) (timeline lsn primary_timeline : ℤ)
    (text : Text) (line : Line) (rest : List Line)
    → p.identify ≡ some (some primary_timeline)
    → local_timeline_lsn s
      ≡ record { in_recovery = some true; timeline = some timeline; lsn = some lsn }
    → is_primary_role p.role ≡ true
    → p.not_in_recovery ≡ true
    → p.history ≡ some (some text)
    → parse_history text ≡ line ∷ rest
    → ascending (line ∷ rest) ≡ true
    → below primary_timeline (line ∷ rest) ≡ true
    → beyond timeline lsn (line ∷ rest) ≡ true
    → ltb_ℤ (pos 0) timeline ≡ true
    → check_timeline_and_lsn s p state
      ≡ some (need_or_not (not (eq_ℤ (timeline_at primary_timeline (line ∷ rest) lsn) timeline)))
check-timeline_at s p state timeline lsn primary_timeline text line rest identified known role
      out_of told parsed up low far first =
    check-on_branch s p state true timeline lsn primary_timeline text line rest identified known
      role out_of told parsed up low first
    ∙ ap (λ b. some (need_or_not (not b)))
        (unfold on_branch accepted in
          owner_of timeline lsn (get_checkpoint_end s timeline lsn) primary_timeline (line ∷ rest)
            up low far)
