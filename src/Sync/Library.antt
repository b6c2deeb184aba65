-- ===== src/Sync/Library.antt =====
-- syncsvc/library.go: the endpoints that list a user's episodes of a podcast, bookmarks and stars.
-- They run outside a transaction; the model reads one state of the database.
pub mod Joined
use podcast_backend.Prelude.{
  ℕ, ℤ, String, Bool, true, false, ◌&&◌, not, Option, none, some, List, [], ◌∷◌, ◌++◌, str_eq, map,
  if◌then◌else◌,
}
use podcast_backend.Errs.{Result, ok, err, E, Arg, database, invalid}
use podcast_backend.Wire.Library.{
  UuidRequest, BookmarkResponse, EpisodeSyncResponse, SyncEpisodesResponse, StarredEpisode,
}
use podcast_backend.Db.Rows.{User, UserEpisode, UserPodcast, Bookmark}
use podcast_backend.Db.Tx.{Tx, Db, pure, or_no_rows, ◌>>=◌}
use podcast_backend.Db.Library.{get_user_podcast}
use podcast_backend.Db.Lists.{
  get_user_episodes_for_podcast, get_bookmarks_for_episodes, get_bookmarks, get_starred_episodes,
}
use podcast_backend.Sync.Env.{Env}
use podcast_backend.Sync.Convert.{copy_ptr, to_int32}

unfoldable pub bookmark_to_response : Bookmark → BookmarkResponse
bookmark_to_response row = record {
  bookmark_uuid = row.bookmark_uuid;
  podcast_uuid = row.podcast_uuid;
  episode_uuid = row.episode_uuid;
  time = row.time_secs;
  title = row.title;
  created_at = row.created_at;
  excerpt = row.excerpt;
  end_time = row.end_time_secs;
  trim_modified = row.trim_modified;
  tags = row.tags;
  tags_modified = row.tags_modified;
}

-- map[string][]*pb.BookmarkResponse: a key that is not there reads as the empty slice.
abbrev pub ByEpisode : Type 0
ByEpisode = String → List BookmarkResponse

abbrev pub no_bookmarks : ByEpisode
no_bookmarks _ = []

-- The loop that appends each bookmark under its episode.
unfoldable pub by_episode : List Bookmark → ByEpisode → ByEpisode
by_episode [] m = m
by_episode (bm ∷ bms) m =
    by_episode bms (λ uuid.
      if str_eq uuid bm.episode_uuid then m uuid ++ bookmark_to_response bm ∷ [] else m uuid)

unfoldable pub episode_response : ByEpisode → UserEpisode → EpisodeSyncResponse
episode_response m ep = record {
  uuid = ep.episode_uuid;
  playing_status = ep.playing_status;
  played_up_to = to_int32 ep.played_up_to;
  is_deleted = ep.is_deleted;
  starred = ep.starred;
  duration = to_int32 ep.duration;
  bookmarks = m ep.episode_uuid;
  deselected_chapters = ep.deselected_chapters;
}

abbrev pub episode_uuids : List UserEpisode → List String
episode_uuids = map λ e. e.episode_uuid

abbrev pub is_empty : List UserEpisode → Bool
is_empty [] = true
is_empty (e ∷ es) = false

-- The response without a subscription, and with its settings.
abbrev pub episodes_response : List EpisodeSyncResponse → Option UserPodcast → SyncEpisodesResponse
episodes_response episodes none = record {
  episodes = episodes;
  auto_start_from = none;
  auto_skip_last = none;
  episodes_sort_order = none;
}
episodes_response episodes (some sub) = record {
  episodes = episodes;
  auto_start_from = copy_ptr sub.auto_start_from;
  auto_skip_last = copy_ptr sub.auto_skip_last;
  episodes_sort_order = copy_ptr sub.episodes_sort_order;
}

-- `return nil, errs.E(op, errs.Database, err)` after a read.
abbrev pub reads : {A : Type 0} → String → Tx A → Db → Result A
reads name body db = elim (body (record { db = db; ticks = 0; unknown_feeds = [] })) [
  | ok (a, s) ↦ ok a
  | err (e, s) ↦ err (E (Arg.op name ∷ Arg.kind database ∷ Arg.cause e ∷ []))
]

unfoldable pub bookmarks_if : ℕ → Bool → List UserEpisode → Tx ByEpisode
unfolding by_episode
bookmarks_if user false episodes = pure no_bookmarks
bookmarks_if user true episodes = do
  bookmarks ← get_bookmarks_for_episodes user (episode_uuids episodes)
  pure (by_episode bookmarks no_bookmarks)

module _ (env : Env) where
  unfoldable pub episodes_body : ℕ → UuidRequest → Tx SyncEpisodesResponse
  unfolding bookmarks_if episode_response
  episodes_body user req = do
    episodes ← get_user_episodes_for_podcast env.is_uuid user req.uuid
    m ← bookmarks_if user (req.include_bookmarks && not (is_empty episodes)) episodes
    sub ← or_no_rows (get_user_podcast env.is_uuid user req.uuid)
    pure (episodes_response (map (episode_response m) episodes) sub)

  -- PodcastEpisodes
  unfoldable pub podcast_episodes : ℕ → UuidRequest → Db → Result SyncEpisodesResponse
  unfolding episodes_body
  podcast_episodes user req db =
      if str_eq req.uuid ""
      then err (
          E (
            Arg.op "syncsvc/Engine.PodcastEpisodes"
            ∷ Arg.kind invalid
            ∷ Arg.text "podcast uuid is required"
            ∷ []))
      else reads "syncsvc/Engine.PodcastEpisodes" (episodes_body user req) db

-- BookmarkList
unfoldable pub bookmark_list : ℕ → Db → Result (List BookmarkResponse)
unfolding bookmark_to_response
bookmark_list user db =
    reads "syncsvc/Engine.BookmarkList"
      (do rows ← get_bookmarks user; pure (map bookmark_to_response rows)) db

unfoldable pub starred_episode : UserEpisode → StarredEpisode
starred_episode row = record {
  uuid = row.episode_uuid;
  podcast_uuid = row.podcast_uuid;
  duration = to_int32 row.duration;
  playing_status = row.playing_status;
  played_up_to = to_int32 row.played_up_to;
  is_deleted = row.is_deleted;
  starred_modified = row.starred_modified;
}

-- StarredList
unfoldable pub starred_list : ℕ → Db → Result (List StarredEpisode)
unfolding starred_episode
starred_list user db =
    reads "syncsvc/Engine.StarredList"
      (do rows ← get_starred_episodes user; pure (map starred_episode rows)) db
