-- ===== src/Sync/Milestones.antt =====
-- syncsvc/engine.go, detectMilestones: ladder crossings as rows.
pub mod Writes
pub mod Exact
use podcast_backend.Prelude.{
  ℕ, ◌/◌, ◌+◌, zero, suc, ℤ, pos, negsuc, leb_ℤ, Bool, true, false, List, [], ◌∷◌, ◌==◌, leb,
  if◌then◌else◌,
}
use podcast_backend.Db.Tx.{Tx, pure, ◌>>=◌, ◌>>◌}
use podcast_backend.Db.Milestones.{
  ListeningTotals, get_listening_totals, count_milestones_for_user, insert_milestone,
  insert_milestone_backdated,
}

abbrev pub milestone_tiers : List ℕ
milestone_tiers = 10 ∷ 50 ∷ 100 ∷ 250 ∷ 500 ∷ 1000 ∷ []

abbrev pub milestone_kind_hours : ℕ
milestone_kind_hours = 1

abbrev pub milestone_kind_episodes : ℕ
milestone_kind_episodes = 2

-- int(seconds / 3600): Go's division truncates towards zero.
abbrev pub whole_hours : ℤ → ℤ
whole_hours (pos n) = pos (n / 3600)
whole_hours (negsuc n) = neg ((n + 1) / 3600)
  where
    neg : ℕ → ℤ
    neg zero = pos 0
    neg (suc k) = negsuc k

module _ (db_now : ℤ) (user : ℕ) where
  -- The closure `insert`: the first detection of a user is backdated.
  insert : ℕ → ℕ → ℕ → Tx Unit
  unfolding insert_milestone insert_milestone_backdated
  insert existing kind tier =
      if existing == 0
      then insert_milestone_backdated db_now user kind tier
      else insert_milestone db_now user kind tier

  insert_if : Bool → ℕ → ℕ → ℕ → Tx Unit
  unfolding insert
  insert_if true existing kind tier = insert existing kind tier
  insert_if false existing kind tier = pure tt

  climb : List ℕ → ℕ → ListeningTotals → Tx Unit
  unfolding insert_if
  climb [] existing totals = pure tt
  climb (tier ∷ tiers) existing totals =
      insert_if (leb_ℤ (pos tier) (whole_hours totals.listened_seconds)) existing
        milestone_kind_hours tier
      >> (insert_if (leb tier totals.episodes_finished) existing milestone_kind_episodes tier
          >> climb tiers existing totals)

  unfoldable pub detect_milestones : Tx Unit
  unfolding get_listening_totals count_milestones_for_user climb
  detect_milestones = do
    totals ← get_listening_totals user
    existing ← count_milestones_for_user user
    climb milestone_tiers existing totals
