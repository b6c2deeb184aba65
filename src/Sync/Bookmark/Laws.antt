-- ===== src/Sync/Bookmark/Laws.antt =====
-- The merge of a bookmark record: what it never changes, and who owns the highlight window.
use podcast_backend.Prelude.{ℤ, pos, eq_ℤ, true, false, ◌||◌, not, str_eq, ◌≡◌, arith}
use podcast_backend.Wire.Sync.{SyncUserBookmark}
use podcast_backend.Db.Rows.{Bookmark}
use podcast_backend.Sync.Bookmark.{merge_bookmark, window_step, stamped_step}
use podcast_backend.Sync.Episode.{present}

-- The columns that the first record of a bookmark fixes.
pub record SameBookmark (a b : Bookmark) : Type 0 where
  pub user_id : a.user_id ≡ b.user_id
  pub bookmark_uuid : a.bookmark_uuid ≡ b.bookmark_uuid
  pub podcast_uuid : a.podcast_uuid ≡ b.podcast_uuid
  pub episode_uuid : a.episode_uuid ≡ b.episode_uuid
  pub time_secs : a.time_secs ≡ b.time_secs
  pub created_at : a.created_at ≡ b.created_at

-- A later record changes neither whose bookmark it is nor where it points, its time or its
-- creation time, and gives it the token.
pub merge_bookmark-fixed :
    (token : ℤ) (rec : SyncUserBookmark) (b : Bookmark)
    → SameBookmark (merge_bookmark token rec b) b
      × ((merge_bookmark token rec b).modified_at ≡ token)
unfolding merge_bookmark stamped_step window_step
merge_bookmark-fixed token rec b = (
  record {
    user_id = ground arith;
    bookmark_uuid = ground arith;
    podcast_uuid = ground arith;
    episode_uuid = ground arith;
    time_secs = ground arith;
    created_at = ground arith;
  },
  ground arith,
)

-- Machine enrichment, a record with no trim stamp, leaves the window alone once a user has trimmed
-- it, and where it holds an excerpt already.
pub enrichment_keeps_window :
    (token : ℤ) (rec : SyncUserBookmark) (b : Bookmark)
    → present rec.trim_modified ≡ false
    → (not (eq_ℤ b.trim_modified (pos 0)) || not (str_eq b.excerpt "")) ≡ true
    → ((merge_bookmark token rec b).excerpt ≡ b.excerpt)
      × ((merge_bookmark token rec b).end_time_secs ≡ b.end_time_secs)
      × ((merge_bookmark token rec b).trim_modified ≡ b.trim_modified)
unfolding merge_bookmark stamped_step window_step
enrichment_keeps_window token rec b machine owned = (ground arith, ground arith, ground arith)
