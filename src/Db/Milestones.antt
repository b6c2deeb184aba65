-- ===== src/Db/Milestones.antt =====
-- db/queries.sql: the listening totals and the milestone ladder.
use podcast_backend.Prelude.{
  ℕ, ℤ, pos, ◌+ℤ◌, ltb_ℤ, eq_ℤ, Bool, false, ◌&&◌, ◌||◌, List, [], ◌∷◌, ◌==◌, length, select,
  if◌then◌else◌,
}
use podcast_backend.Prelude.{negsuc, leb_ℤ, leb, true}
use podcast_backend.Errs.{native, out_of_range}
use podcast_backend.Db.Rows.{UserEpisode, Milestone}
use podcast_backend.Db.Tx.{Tx, read, write, pure, fail, ◌>>=◌}

abbrev pub max_ℤ : ℤ → ℤ → ℤ
max_ℤ a b = if ltb_ℤ a b then b else a

abbrev pub min_ℤ : ℤ → ℤ → ℤ
min_ℤ a b = if ltb_ℤ b a then b else a

-- LEAST(GREATEST(played_up_to, 0), CASE WHEN duration > 0 THEN duration ELSE played_up_to END)
unfoldable pub listened : UserEpisode → ℤ
listened e =
    min_ℤ (max_ℤ e.played_up_to (pos 0))
      (if ltb_ℤ (pos 0) e.duration then e.duration else e.played_up_to)

-- SUM of a bigint column is numeric, without a bound.
unfoldable pub sum_listened : ℕ → List UserEpisode → ℤ
unfolding listened
sum_listened user [] = pos 0
sum_listened user (e ∷ es) =
    (if e.user_id == user then listened e else pos 0) +ℤ sum_listened user es

pub record ListeningTotals : Type 0 where
  pub listened_seconds : ℤ
  pub episodes_finished : ℕ

-- v::bigint and n::int, which Postgres refuses out of range.
abbrev pub fits_bigint : ℤ → Bool
fits_bigint v = leb_ℤ (negsuc 9223372036854775807) v && leb_ℤ v (pos 9223372036854775807)

abbrev pub fits_int : ℕ → Bool
fits_int n = leb n 2147483647

abbrev pub in_range : {A : Type 0} → Bool → A → Tx A
in_range true v = pure v
in_range false v = fail (native out_of_range)

-- GetListeningTotals
unfoldable pub count_finished : ℕ → List UserEpisode → ℕ
count_finished user rows =
    length (select (λ e. e.user_id == user && eq_ℤ e.playing_status (pos 3)) rows)

unfoldable pub get_listening_totals : ℕ → Tx ListeningTotals
unfolding sum_listened count_finished
get_listening_totals user = do
  rows ← read (λ db. db.episodes)
  seconds ← in_range (fits_bigint (sum_listened user rows)) (sum_listened user rows)
  finished ← in_range (fits_int (count_finished user rows)) (count_finished user rows)
  pure (record { listened_seconds = seconds; episodes_finished = finished })

unfoldable pub count_milestones_for_user : ℕ → Tx ℕ
count_milestones_for_user user = read λ db. length (select (λ m. m.user_id == user) db.milestones)

abbrev pub same_milestone : ℕ → ℕ → ℕ → Milestone → Bool
same_milestone user kind tier m = m.user_id == user && (m.kind == kind && m.tier == tier)

unfoldable pub has_milestone : ℕ → ℕ → ℕ → List Milestone → Bool
has_milestone user kind tier [] = false
has_milestone user kind tier (m ∷ ms) =
    same_milestone user kind tier m || has_milestone user kind tier ms

-- INSERT … ON CONFLICT DO NOTHING
unfoldable pub insert_if_new : Milestone → List Milestone → List Milestone
unfolding has_milestone
insert_if_new m ms = if has_milestone m.user_id m.kind m.tier ms then ms else m ∷ ms

-- eight days, in milliseconds
abbrev pub eight_days : ℤ
eight_days = negsuc 691199999

-- InsertMilestone and InsertMilestoneBackdated; `db_now` is the database's now(), in milliseconds.
module _ (db_now : ℤ) where
  unfoldable pub insert_milestone : ℕ → ℕ → ℕ → Tx Unit
  unfolding insert_if_new
  insert_milestone user kind tier = write λ db. record db {
    milestones =
        insert_if_new (record { user_id = user; kind = kind; tier = tier; crossed_at = db_now })
          db.milestones;
  }

  unfoldable pub insert_milestone_backdated : ℕ → ℕ → ℕ → Tx Unit
  unfolding insert_if_new
  insert_milestone_backdated user kind tier = write λ db. record db {
    milestones =
        insert_if_new
          (record { user_id = user; kind = kind; tier = tier; crossed_at = db_now +ℤ eight_days })
          db.milestones;
  }
