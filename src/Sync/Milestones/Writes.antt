-- ===== src/Sync/Milestones/Writes.antt =====
-- Milestone detection writes milestone rows only.
use podcast_backend.Prelude.{
  ℕ, ℤ, pos, leb_ℤ, leb, ◌==◌, Bool, true, false, List, [], ◌∷◌, ◌≡◌, subst, arith,
}
use podcast_backend.Errs.{ok}
use podcast_backend.Db.Tx.{Session}
use podcast_backend.Db.Milestones.{
  ListeningTotals, get_listening_totals, count_milestones_for_user, insert_milestone,
  insert_milestone_backdated,
}
use podcast_backend.Db.Wrote.{Wrote, Writes}
use podcast_backend.Db.Wrote.Rules.{pure-Writes, if-Writes, bind-Writes, unchanged-Writes}
use podcast_backend.Db.Wrote.Upserts.{Wrote-milestones}
use podcast_backend.Sync.Milestones.{
  insert_if, climb, detect_milestones, milestone_tiers, whole_hours, milestone_kind_hours,
  milestone_kind_episodes,
}

module _ (db_now : ℤ) (user : ℕ) (token : ℤ) where
  insert_milestone-Writes :
      (kind tier : ℕ) → Writes user token (insert_milestone db_now user kind tier)
  unfolding insert_milestone
  insert_milestone-Writes kind tier s a s' h =
      subst (λ d. Wrote user token s.db d) (written h) (Wrote-milestones user token s.db _)
    where
      written :
          insert_milestone db_now user kind tier s ≡ ok (a, s')
          → record s.db { milestones = s'.db.milestones } ≡ s'.db
      written e = ground arith

  insert_milestone_backdated-Writes :
      (kind tier : ℕ) → Writes user token (insert_milestone_backdated db_now user kind tier)
  unfolding insert_milestone_backdated
  insert_milestone_backdated-Writes kind tier s a s' h =
      subst (λ d. Wrote user token s.db d) (written h) (Wrote-milestones user token s.db _)
    where
      written :
          insert_milestone_backdated db_now user kind tier s ≡ ok (a, s')
          → record s.db { milestones = s'.db.milestones } ≡ s'.db
      written e = ground arith

  insert_if-Writes :
      (b : Bool) (existing kind tier : ℕ)
      → Writes user token (insert_if db_now user b existing kind tier)
  unfolding insert_if
  insert_if-Writes false existing kind tier = pure-Writes user token tt
  insert_if-Writes true existing kind tier =
      if-Writes user token (existing == 0) _ _ (λ _. insert_milestone_backdated-Writes kind tier)
        (λ _. insert_milestone-Writes kind tier)

  climb-Writes :
      (tiers : List ℕ) (existing : ℕ) (totals : ListeningTotals)
      → Writes user token (climb db_now user tiers existing totals)
  unfolding climb
  climb-Writes [] existing totals = pure-Writes user token tt
  climb-Writes (tier ∷ tiers) existing totals =
      bind-Writes user token _ _
        (insert_if-Writes (leb_ℤ (pos tier) (whole_hours totals.listened_seconds)) existing
          milestone_kind_hours tier)
        λ _.
          bind-Writes user token _ _
            (insert_if-Writes (leb tier totals.episodes_finished) existing milestone_kind_episodes
              tier)
            λ _. climb-Writes tiers existing totals

  totals-db :
      (s : Session) (a : ListeningTotals) (s' : Session)
      → get_listening_totals user s ≡ ok (a, s')
      → s'.db ≡ s.db
  unfolding get_listening_totals
  totals-db s a s' h = ground arith

  count-db :
      (s : Session) (a : ℕ) (s' : Session)
      → count_milestones_for_user user s ≡ ok (a, s')
      → s'.db ≡ s.db
  unfolding count_milestones_for_user
  count-db s a s' h = ground arith

  pub detect_milestones-Writes : Writes user token (detect_milestones db_now user)
  unfolding detect_milestones
  detect_milestones-Writes =
      bind-Writes user token _ _ (unchanged-Writes user token (get_listening_totals user) totals-db)
        λ totals.
          bind-Writes user token _ _
            (unchanged-Writes user token (count_milestones_for_user user) count-db)
            λ existing. climb-Writes milestone_tiers existing totals
