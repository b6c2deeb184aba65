-- ===== src/Sync/Collect/Since.antt =====
-- Reads with no upper end: under the invariant the user's token bounds every row, so a window that
-- ends there leaves nothing out.
use podcast_backend.Prelude.{ℕ, ℤ, ◌<ℤ◌, In, ◌≡◌}
use podcast_backend.Wire.Sync.{Record}
use podcast_backend.Db.Rows.{UserPodcast, UserEpisode, Folder, Playlist, Bookmark}
use podcast_backend.Db.Tx.{Db}
use podcast_backend.Sync.Env.{Env}
use podcast_backend.Sync.Convert.{
  user_podcast_to_proto, user_episode_to_proto, folder_to_proto, playlist_to_proto,
  bookmark_to_proto,
}
use podcast_backend.Sync.Collect.Window.{Changed}
use podcast_backend.Sync.Invariant.{LibraryUpTo}

-- The record is the conversion of a row of the user whose token is past `since`, and `P` holds of
-- the token.
pub data ChangedSince (env : Env) (user : ℕ) (since : ℤ) (P : ℤ → Type 0) (db : Db)
    : Record → Type 0 where
  folder :
      (row : Folder)
      → In row db.folders
      → row.user_id ≡ user
      → since <ℤ row.modified_at
      → P row.modified_at
      → ChangedSince env user since P db (Record.folder (folder_to_proto row))
  podcast :
      (row : UserPodcast)
      → In row db.podcasts
      → row.user_id ≡ user
      → since <ℤ row.modified_at
      → P row.modified_at
      → ChangedSince env user since P db (Record.podcast (user_podcast_to_proto env row))
  episode :
      (row : UserEpisode)
      → In row db.episodes
      → row.user_id ≡ user
      → since <ℤ row.modified_at
      → P row.modified_at
      → ChangedSince env user since P db (Record.episode (user_episode_to_proto row))
  playlist :
      (row : Playlist)
      → In row db.playlists
      → row.user_id ≡ user
      → since <ℤ row.modified_at
      → P row.modified_at
      → ChangedSince env user since P db (Record.playlist (playlist_to_proto env row))
  bookmark :
      (row : Bookmark)
      → In row db.bookmarks
      → row.user_id ≡ user
      → since <ℤ row.modified_at
      → P row.modified_at
      → ChangedSince env user since P db (Record.bookmark (bookmark_to_proto row))

-- No condition on the token.
abbrev pub AnyToken : ℤ → Type 0
AnyToken _ = Unit

module _ (env : Env) (user : ℕ) (since token : ℤ) (db : Db) where
  pub Changed-Since :
      (r : Record) → Changed env user since token db r → ChangedSince env user since AnyToken db r
  Changed-Since _ (Changed.folder row i w) = ChangedSince.folder row i w.owned w.after tt
  Changed-Since _ (Changed.podcast row i w) = ChangedSince.podcast row i w.owned w.after tt
  Changed-Since _ (Changed.episode row i w) = ChangedSince.episode row i w.owned w.after tt
  Changed-Since _ (Changed.playlist row i w) = ChangedSince.playlist row i w.owned w.after tt
  Changed-Since _ (Changed.bookmark row i w) = ChangedSince.bookmark row i w.owned w.after tt

  pub Since-Changed :
      (r : Record)
      → LibraryUpTo user token db
      → ChangedSince env user since AnyToken db r
      → Changed env user since token db r
  Since-Changed _ b (ChangedSince.folder row i eu a _) =
      Changed.folder row i (record { owned = eu; after = a; until = b.folders.bound row i eu })
  Since-Changed _ b (ChangedSince.podcast row i eu a _) =
      Changed.podcast row i (record { owned = eu; after = a; until = b.podcasts.bound row i eu })
  Since-Changed _ b (ChangedSince.episode row i eu a _) =
      Changed.episode row i (record { owned = eu; after = a; until = b.episodes.bound row i eu })
  Since-Changed _ b (ChangedSince.playlist row i eu a _) =
      Changed.playlist row i (record { owned = eu; after = a; until = b.playlists.bound row i eu })
  Since-Changed _ b (ChangedSince.bookmark row i eu a _) =
      Changed.bookmark row i (record { owned = eu; after = a; until = b.bookmarks.bound row i eu })
