-- ===== src/Sync/Collect.antt =====
-- syncsvc/engine.go, collectChangedRecords: what changed in a window of tokens, in import order.
pub mod Window
pub mod Since
use podcast_backend.Prelude.{ℕ, ℤ, List, [], ◌∷◌, ◌++◌, map}
use podcast_backend.Wire.Sync.{Record}
use podcast_backend.Wire.Sync
use podcast_backend.Db.Tx.{Tx, pure, ◌>>=◌}
use podcast_backend.Db.Library.{
  get_folders_modified_since, get_user_podcasts_modified_since, get_user_episodes_modified_since,
  get_playlists_modified_since, get_bookmarks_modified_since,
}
use podcast_backend.Sync.Env.{Env}
use podcast_backend.Sync.Convert.{
  user_podcast_to_proto, user_episode_to_proto, folder_to_proto, playlist_to_proto,
  bookmark_to_proto,
}

unfoldable pub collect_changed_records : Env → ℕ → ℤ → ℤ → Tx (List Record)
unfolding get_folders_modified_since get_user_podcasts_modified_since
    get_user_episodes_modified_since get_playlists_modified_since get_bookmarks_modified_since
collect_changed_records env user since up_to = do
  folders ← get_folders_modified_since user since up_to
  podcasts ← get_user_podcasts_modified_since user since up_to
  episodes ← get_user_episodes_modified_since user since up_to
  playlists ← get_playlists_modified_since user since up_to
  bookmarks ← get_bookmarks_modified_since user since up_to
  pure (
      map (λ row. Record.folder (folder_to_proto row)) folders
      ++ (map (λ row. Record.podcast (user_podcast_to_proto env row)) podcasts
          ++ (map (λ row. Record.episode (user_episode_to_proto row)) episodes
              ++ (map (λ row. Record.playlist (playlist_to_proto env row)) playlists
                  ++ map (λ row. Record.bookmark (bookmark_to_proto row)) bookmarks))))
