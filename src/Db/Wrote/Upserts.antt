-- ===== src/Db/Wrote/Upserts.antt =====
-- One upsert of a row that is the user's and carries the token.
use podcast_backend.Prelude.{ℕ, ℤ, List, ◌≡◌, refl}
use podcast_backend.Db.Table.{put}
use podcast_backend.Db.Rows.{
  UserPodcast, UserEpisode, Folder, Playlist, Bookmark, Device, Milestone, podcast_key, episode_key,
  folder_key, playlist_key, bookmark_key,
}
use podcast_backend.Db.Tx.{Db}
use podcast_backend.Db.Wrote.{Wrote, TableWrote-refl, TableWrote-put}

module _ (user : ℕ) (token : ℤ) (d : Db) where
  pub Wrote-podcasts :
      (r : UserPodcast)
      → r.user_id ≡ user
      → r.modified_at ≡ token
      → Wrote user token d (record d { podcasts = put r d.podcasts })
  Wrote-podcasts r eu em = record {
    podcasts = TableWrote-put _ user token r d.podcasts eu em;
    episodes = TableWrote-refl _ user token d.episodes;
    folders = TableWrote-refl _ user token d.folders;
    playlists = TableWrote-refl _ user token d.playlists;
    bookmarks = TableWrote-refl _ user token d.bookmarks;
    users = refl;
    catalog = refl;
    up_next = refl;
    history = refl;
    settings = refl;
  }

  pub Wrote-episodes :
      (r : UserEpisode)
      → r.user_id ≡ user
      → r.modified_at ≡ token
      → Wrote user token d (record d { episodes = put r d.episodes })
  Wrote-episodes r eu em = record {
    podcasts = TableWrote-refl _ user token d.podcasts;
    episodes = TableWrote-put _ user token r d.episodes eu em;
    folders = TableWrote-refl _ user token d.folders;
    playlists = TableWrote-refl _ user token d.playlists;
    bookmarks = TableWrote-refl _ user token d.bookmarks;
    users = refl;
    catalog = refl;
    up_next = refl;
    history = refl;
    settings = refl;
  }

  pub Wrote-folders :
      (r : Folder)
      → r.user_id ≡ user
      → r.modified_at ≡ token
      → Wrote user token d (record d { folders = put r d.folders })
  Wrote-folders r eu em = record {
    podcasts = TableWrote-refl _ user token d.podcasts;
    episodes = TableWrote-refl _ user token d.episodes;
    folders = TableWrote-put _ user token r d.folders eu em;
    playlists = TableWrote-refl _ user token d.playlists;
    bookmarks = TableWrote-refl _ user token d.bookmarks;
    users = refl;
    catalog = refl;
    up_next = refl;
    history = refl;
    settings = refl;
  }

  pub Wrote-playlists :
      (r : Playlist)
      → r.user_id ≡ user
      → r.modified_at ≡ token
      → Wrote user token d (record d { playlists = put r d.playlists })
  Wrote-playlists r eu em = record {
    podcasts = TableWrote-refl _ user token d.podcasts;
    episodes = TableWrote-refl _ user token d.episodes;
    folders = TableWrote-refl _ user token d.folders;
    playlists = TableWrote-put _ user token r d.playlists eu em;
    bookmarks = TableWrote-refl _ user token d.bookmarks;
    users = refl;
    catalog = refl;
    up_next = refl;
    history = refl;
    settings = refl;
  }

  pub Wrote-bookmarks :
      (r : Bookmark)
      → r.user_id ≡ user
      → r.modified_at ≡ token
      → Wrote user token d (record d { bookmarks = put r d.bookmarks })
  Wrote-bookmarks r eu em = record {
    podcasts = TableWrote-refl _ user token d.podcasts;
    episodes = TableWrote-refl _ user token d.episodes;
    folders = TableWrote-refl _ user token d.folders;
    playlists = TableWrote-refl _ user token d.playlists;
    bookmarks = TableWrote-put _ user token r d.bookmarks eu em;
    users = refl;
    catalog = refl;
    up_next = refl;
    history = refl;
    settings = refl;
  }

  pub Wrote-devices : (ds : List Device) → Wrote user token d (record d { devices = ds })
  Wrote-devices ds = record {
    podcasts = TableWrote-refl _ user token d.podcasts;
    episodes = TableWrote-refl _ user token d.episodes;
    folders = TableWrote-refl _ user token d.folders;
    playlists = TableWrote-refl _ user token d.playlists;
    bookmarks = TableWrote-refl _ user token d.bookmarks;
    users = refl;
    catalog = refl;
    up_next = refl;
    history = refl;
    settings = refl;
  }

  pub Wrote-milestones : (ms : List Milestone) → Wrote user token d (record d { milestones = ms })
  Wrote-milestones ms = record {
    podcasts = TableWrote-refl _ user token d.podcasts;
    episodes = TableWrote-refl _ user token d.episodes;
    folders = TableWrote-refl _ user token d.folders;
    playlists = TableWrote-refl _ user token d.playlists;
    bookmarks = TableWrote-refl _ user token d.bookmarks;
    users = refl;
    catalog = refl;
    up_next = refl;
    history = refl;
    settings = refl;
  }
