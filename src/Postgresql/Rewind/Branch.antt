-- ===== src/Postgresql/Rewind/Branch.antt =====
-- When .patroni/patroni/postgresql/rewind.py asks for a rewind: the position of the node against the
-- history of the primary.
use otus_hightload.Prelude.{
  arith, Bool-cases, inl, inr, any, all, Bool, true, false, not, ◌&&◌, ◌||◌, List, [], ◌∷◌,
  if◌then◌else◌, ◌≡◌, refl,
}
use mathlib.Core.Path.{subst}
use otus_hightload.Prelude.Int.{ℤ, ltb_ℤ, eq_ℤ, eq_of_eq_ℤ}
use otus_hightload.Postgresql.History.{Line}
use otus_hightload.Postgresql.Rewind.Local.{Server, get_checkpoint_end}
use otus_hightload.Postgresql.Rewind.Check.{switched, diverged}

-- The switchpoint fits the position: a replica has not gone beyond it; the checkpoint of a former primary
-- begins before it and ends just there.
unfoldable pub shares : Bool → ℤ → ℤ → Line → Bool
shares in_recovery lsn checkpoint_end line =
    if in_recovery
    then not (ltb_ℤ line.switchpoint lsn)
    else ltb_ℤ lsn line.switchpoint && eq_ℤ line.switchpoint checkpoint_end

unfoldable pub is_ancestor : Bool → ℤ → ℤ → ℤ → List Line → Bool
is_ancestor in_recovery timeline lsn checkpoint_end =
    any (λ line. eq_ℤ line.timeline timeline && shares in_recovery lsn checkpoint_end line)

unfoldable pub ascending : List Line → Bool
ascending [] = true
ascending (line ∷ rest) = all (λ next. ltb_ℤ line.timeline next.timeline) rest && ascending rest

switched-shares :
    (in_recovery : Bool) (lsn checkpoint_end : ℤ) (line : Line)
    → switched in_recovery lsn checkpoint_end line.switchpoint
      ≡ not (shares in_recovery lsn checkpoint_end line)
unfolding switched shares
switched-shares true lsn e line = ground arith
switched-shares false lsn e line = ground arith

pub other_timeline : (a b : ℤ) → ltb_ℤ a b ≡ true → eq_ℤ b a ≡ false
unfolding eq_ℤ
other_timeline a b h = ground arith

pub earlier_timeline : (a b : ℤ) → ltb_ℤ a b ≡ true → eq_ℤ a b ≡ false
unfolding eq_ℤ
earlier_timeline a b h = ground arith

pub head_later : (b c : Bool) → b && c ≡ true → (b ≡ true) × (c ≡ true)
head_later true c h = (refl, h)
head_later false c h = cc

pub later_timelines :
    (in_recovery : Bool) (timeline lsn checkpoint_end : ℤ) (lines : List Line)
    → all (λ next. ltb_ℤ timeline next.timeline) lines ≡ true
    → is_ancestor in_recovery timeline lsn checkpoint_end lines ≡ false
unfolding is_ancestor all any
later_timelines r timeline lsn e [] h = refl
later_timelines r timeline lsn e (line ∷ rest) h =
    let (p, q) = head_later _ _ h in
    rw (other_timeline timeline line.timeline p) (later_timelines r timeline lsn e rest q)

pub ltb_ℤ_trans : (a b c : ℤ) → ltb_ℤ a b ≡ true → ltb_ℤ b c ≡ true → ltb_ℤ a c ≡ true
ltb_ℤ_trans a b c p q = ground arith

pub ancestor_cons :
    (r : Bool) (timeline lsn e : ℤ) (line : Line) (rest : List Line)
    → is_ancestor r timeline lsn e (line ∷ rest)
      ≡ (eq_ℤ line.timeline timeline && shares r lsn e line) || is_ancestor r timeline lsn e rest
unfolding is_ancestor any
ancestor_cons r timeline lsn e line rest = refl

pub before_timelines :
    (timeline later : ℤ) (lines : List Line)
    → ltb_ℤ timeline later ≡ true
    → all (λ next. ltb_ℤ later next.timeline) lines ≡ true
    → all (λ next. ltb_ℤ timeline next.timeline) lines ≡ true
unfolding all
before_timelines timeline later [] h k = refl
before_timelines timeline later (line ∷ rest) h k =
    let (p, q) =
      head_later (ltb_ℤ later line.timeline) (all (λ next. ltb_ℤ later next.timeline) rest) k in
    rw (ltb_ℤ_trans timeline later line.timeline h p) (before_timelines timeline later rest h q)

pub diverged_iff :
    (in_recovery : Bool) (timeline lsn checkpoint_end : ℤ) (lines : List Line)
    → ascending lines ≡ true
    → diverged in_recovery timeline lsn checkpoint_end lines
      ≡ not (is_ancestor in_recovery timeline lsn checkpoint_end lines)
unfolding ascending diverged
diverged_iff r timeline lsn e [] h = unfold is_ancestor any in refl
diverged_iff r timeline lsn e (line ∷ rest) h =
    let (p, q) =
      head_later (all (λ next. ltb_ℤ line.timeline next.timeline) rest) (ascending rest) h in
    elim (Bool-cases (eq_ℤ line.timeline timeline)) [
      | inl same ↦
          rw
            (
              same,
              switched-shares r lsn e line,
              ancestor_cons r timeline lsn e line rest,
              same,
              later_timelines r timeline lsn e rest (
                  subst (λ t. all (λ next. ltb_ℤ t next.timeline) rest ≡ true)
                    (eq_of_eq_ℤ line.timeline timeline same) p),
            )
            (ground arith)
      | inr other ↦ elim (Bool-cases (ltb_ℤ timeline line.timeline)) [
        | inl later ↦
            rw
              (
                other,
                later,
                ancestor_cons r timeline lsn e line rest,
                other,
                later_timelines r timeline lsn e rest
                    (before_timelines timeline line.timeline rest later p),
              )
              refl
        | inr earlier ↦
            rw (other, earlier, ancestor_cons r timeline lsn e line rest, other)
              (diverged_iff r timeline lsn e rest q)
      ]
    ]

-- what the check accepts: the timeline of the primary, or one that it has left at a fitting position
unfoldable pub on_branch : Server → Bool → ℤ → ℤ → ℤ → List Line → Bool
on_branch s in_recovery timeline lsn primary_timeline lines =
    eq_ℤ timeline primary_timeline
    || is_ancestor in_recovery timeline lsn (get_checkpoint_end s timeline lsn) lines

unfoldable pub below : ℤ → List Line → Bool
below timeline = all (λ line. ltb_ℤ line.timeline timeline)

pub above_all :
    (r : Bool) (timeline lsn e primary_timeline : ℤ) (lines : List Line)
    → ltb_ℤ primary_timeline timeline ≡ true
    → below primary_timeline lines ≡ true
    → is_ancestor r timeline lsn e lines ≡ false
unfolding below all is_ancestor any
above_all r timeline lsn e primary_timeline [] h k = refl
above_all r timeline lsn e primary_timeline (line ∷ rest) h k =
    let (p, q) =
      head_later (ltb_ℤ line.timeline primary_timeline)
        (all (λ next. ltb_ℤ next.timeline primary_timeline) rest) k in
    rw
      (earlier_timeline line.timeline timeline
        (ltb_ℤ_trans line.timeline primary_timeline timeline p h))
      (above_all r timeline lsn e primary_timeline rest h q)
