-- ===== src/Db/Library/Steps.antt =====
-- The library statements, taken apart: what one that returned has read or written.
use podcast_backend.Prelude.{ℕ, String, Bool, Option, ◌≡◌, arith}
use podcast_backend.Errs.{ok, is_no_rows}
use podcast_backend.Db.Table.{find, put}
use podcast_backend.Db.Rows.{
  UserPodcast, UserEpisode, Folder, Playlist, Bookmark, podcast_key, episode_key, folder_key,
  playlist_key, bookmark_key,
}
use podcast_backend.Db.Tx.{Session, or_no_rows}
use podcast_backend.Db.Library.{
  get_user_podcast, upsert_user_podcast, merge_user_podcast, get_user_episode, upsert_user_episode,
  get_bookmark, upsert_bookmark, upsert_folder, upsert_playlist,
}

module _ (is_uuid : String → Bool) (s : Session) where
  pub get_user_episode_step :
      (user : ℕ) (uuid : String) {found : Option UserEpisode} {s' : Session}
      → or_no_rows (get_user_episode is_uuid user uuid) s ≡ ok (found, s')
      → (s' ≡ s) × (found ≡ find user uuid s.db.episodes)
  unfolding get_user_episode is_no_rows
  get_user_episode_step user uuid h = ground arith

  pub get_user_podcast_step :
      (user : ℕ) (uuid : String) {found : Option UserPodcast} {s' : Session}
      → or_no_rows (get_user_podcast is_uuid user uuid) s ≡ ok (found, s')
      → (s' ≡ s) × (found ≡ find user uuid s.db.podcasts)
  unfolding get_user_podcast is_no_rows
  get_user_podcast_step user uuid h = ground arith

  pub get_bookmark_step :
      (user : ℕ) (uuid : String) {found : Option Bookmark} {s' : Session}
      → or_no_rows (get_bookmark is_uuid user uuid) s ≡ ok (found, s')
      → (s' ≡ s) × (found ≡ find user uuid s.db.bookmarks)
  unfolding get_bookmark is_no_rows
  get_bookmark_step user uuid h = ground arith

  pub upsert_user_episode_step :
      (row : UserEpisode) {s' : Session}
      → upsert_user_episode is_uuid row s ≡ ok (tt, s')
      → s' ≡ record s { db = record s.db { episodes = put row s.db.episodes } }
  unfolding upsert_user_episode
  upsert_user_episode_step row h = ground arith

  pub upsert_user_podcast_step :
      (row : UserPodcast) {s' : Session}
      → upsert_user_podcast is_uuid row s ≡ ok (tt, s')
      → s' ≡ record s {
        db = record s.db {
          podcasts =
              put
                (merge_user_podcast is_uuid (find row.user_id row.podcast_uuid s.db.podcasts) row)
                s.db.podcasts;
        };
      }
  unfolding upsert_user_podcast
  upsert_user_podcast_step row h = ground arith

  pub upsert_bookmark_step :
      (row : Bookmark) {s' : Session}
      → upsert_bookmark is_uuid row s ≡ ok (tt, s')
      → s' ≡ record s { db = record s.db { bookmarks = put row s.db.bookmarks } }
  unfolding upsert_bookmark
  upsert_bookmark_step row h = ground arith

  pub upsert_folder_step :
      (row : Folder) {s' : Session}
      → upsert_folder is_uuid row s ≡ ok (tt, s')
      → s' ≡ record s { db = record s.db { folders = put row s.db.folders } }
  unfolding upsert_folder
  upsert_folder_step row h = ground arith

  pub upsert_playlist_step :
      (row : Playlist) {s' : Session}
      → upsert_playlist is_uuid row s ≡ ok (tt, s')
      → s' ≡ record s { db = record s.db { playlists = put row s.db.playlists } }
  unfolding upsert_playlist
  upsert_playlist_step row h = ground arith
