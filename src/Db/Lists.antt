-- ===== src/Db/Lists.antt =====
-- db/queries.sql: the statements that list a user's rows.
use podcast_backend.Prelude.{ℕ, String, Bool, ◌&&◌, not, List, select, ◌==◌, str_eq}
use podcast_backend.Db.Rows.{UserEpisode, Bookmark}
use podcast_backend.Db.Tx.{Tx, read, uuid_param, ◌>>◌}
use podcast_backend.Db.Queue.{has_uuid}

unfoldable pub get_user_episodes_for_podcast : (String → Bool) → ℕ → String → Tx (List UserEpisode)
get_user_episodes_for_podcast is_uuid user uuid = do
  uuid_param is_uuid uuid
  read λ db. select (λ e. e.user_id == user && str_eq e.podcast_uuid uuid) db.episodes

-- The uuids are those of stored rows, so the cast of the array cannot fail.
unfoldable pub get_bookmarks_for_episodes : ℕ → List String → Tx (List Bookmark)
get_bookmarks_for_episodes user uuids = read λ db.
    select (λ b. b.user_id == user && (has_uuid b.episode_uuid uuids && not b.is_deleted))
      db.bookmarks

unfoldable pub get_bookmarks : ℕ → Tx (List Bookmark)
get_bookmarks user = read λ db. select (λ b. b.user_id == user && not b.is_deleted) db.bookmarks

unfoldable pub get_starred_episodes : ℕ → Tx (List UserEpisode)
get_starred_episodes user = read λ db. select (λ e. e.user_id == user && e.starred) db.episodes
