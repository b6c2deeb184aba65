-- ===== src/Db/Library.antt =====
-- db/queries.sql: the statements on the user's library.
pub mod Steps
use podcast_backend.Prelude.{
  ℕ, ℤ, String, Bool, false, ◌&&◌, Option, none, some, List, ◌==◌, str_eq, select, ltb_ℤ, leb_ℤ,
  if◌then◌else◌,
}
use podcast_backend.Db.Table.{find, put}
use podcast_backend.Db.Rows.{
  UserPodcast, UserEpisode, Folder, Playlist, Bookmark, Device, podcast_key, episode_key,
  folder_key, playlist_key, bookmark_key, device_key,
}
use podcast_backend.Db.Tx.{Tx, pure, read, write, one, uuid_param, ◌>>=◌, ◌>>◌}

-- WHERE user_id = $1 AND modified_at > $2 AND modified_at <= $3
abbrev pub changed_in : ℕ → ℤ → ℤ → ℕ → ℤ → Bool
changed_in user since up_to user_id modified_at =
    user_id == user && ltb_ℤ since modified_at && leb_ℤ modified_at up_to

abbrev pub uuid_or_null : (String → Bool) → Option String → Tx Unit
uuid_or_null is_uuid none = pure tt
uuid_or_null is_uuid (some u) = uuid_param is_uuid u

-- The CASE of the upsert: an empty text keeps what is stored.
abbrev keep_if_empty : String → String → String
keep_if_empty new old = if str_eq new "" then old else new

module _ (is_uuid : String → Bool) where
  unfoldable pub get_user_podcast : ℕ → String → Tx UserPodcast
  get_user_podcast user uuid = do
    uuid_param is_uuid uuid
    found ← read (λ db. find user uuid db.podcasts)
    one found

  -- notify_enabled is no parameter of the statement: a new row has the column's default.
  unfoldable pub merge_user_podcast : Option UserPodcast → UserPodcast → UserPodcast
  merge_user_podcast none p = record p { notify_enabled = false }
  merge_user_podcast (some old) p = record p {
    synced_title = keep_if_empty p.synced_title old.synced_title;
    synced_feed_url = keep_if_empty p.synced_feed_url old.synced_feed_url;
    notify_enabled = old.notify_enabled;
  }

  unfoldable pub upsert_user_podcast : UserPodcast → Tx Unit
  unfolding merge_user_podcast
  upsert_user_podcast p = do
    uuid_param is_uuid p.podcast_uuid
    uuid_or_null is_uuid p.folder_uuid
    write λ db. record db {
      podcasts = put (merge_user_podcast (find p.user_id p.podcast_uuid db.podcasts) p) db.podcasts;
    }

  unfoldable pub get_user_episode : ℕ → String → Tx UserEpisode
  get_user_episode user uuid = do
    uuid_param is_uuid uuid
    found ← read (λ db. find user uuid db.episodes)
    one found

  unfoldable pub upsert_user_episode : UserEpisode → Tx Unit
  upsert_user_episode e = do
    uuid_param is_uuid e.episode_uuid
    uuid_param is_uuid e.podcast_uuid
    write λ db. record db { episodes = put e db.episodes }

  unfoldable pub upsert_folder : Folder → Tx Unit
  upsert_folder f = do
    uuid_param is_uuid f.folder_uuid
    write λ db. record db { folders = put f db.folders }

  unfoldable pub upsert_playlist : Playlist → Tx Unit
  upsert_playlist p = do
    uuid_param is_uuid p.uuid
    write λ db. record db { playlists = put p db.playlists }

  unfoldable pub get_bookmark : ℕ → String → Tx Bookmark
  get_bookmark user uuid = do
    uuid_param is_uuid uuid
    found ← read (λ db. find user uuid db.bookmarks)
    one found

  unfoldable pub upsert_bookmark : Bookmark → Tx Unit
  upsert_bookmark b = do
    uuid_param is_uuid b.bookmark_uuid
    uuid_param is_uuid b.podcast_uuid
    uuid_param is_uuid b.episode_uuid
    write λ db. record db { bookmarks = put b db.bookmarks }

unfoldable pub upsert_device : Device → Tx Unit
upsert_device d = write λ db. record db { devices = put d db.devices }

module _ (user : ℕ) (since up_to : ℤ) where
  unfoldable pub get_folders_modified_since : Tx (List Folder)
  get_folders_modified_since =
      read λ db. select (λ r. changed_in user since up_to r.user_id r.modified_at) db.folders

  unfoldable pub get_user_podcasts_modified_since : Tx (List UserPodcast)
  get_user_podcasts_modified_since =
      read λ db. select (λ r. changed_in user since up_to r.user_id r.modified_at) db.podcasts

  unfoldable pub get_user_episodes_modified_since : Tx (List UserEpisode)
  get_user_episodes_modified_since =
      read λ db. select (λ r. changed_in user since up_to r.user_id r.modified_at) db.episodes

  unfoldable pub get_playlists_modified_since : Tx (List Playlist)
  get_playlists_modified_since =
      read λ db. select (λ r. changed_in user since up_to r.user_id r.modified_at) db.playlists

  unfoldable pub get_bookmarks_modified_since : Tx (List Bookmark)
  get_bookmarks_modified_since =
      read λ db. select (λ r. changed_in user since up_to r.user_id r.modified_at) db.bookmarks
