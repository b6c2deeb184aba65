-- ===== src/Wire/Library.antt =====
-- The messages of the endpoints that list a user's episodes, bookmarks and stars.
use podcast_backend.Prelude.{ℤ, String, Bool, Option, List}
use podcast_backend.Wire.{Instant, Double}

pub record UuidRequest : Type 0 where
  pub uuid : String
  pub include_bookmarks : Bool

pub record BookmarkResponse : Type 0 where
  pub bookmark_uuid : String
  pub podcast_uuid : String
  pub episode_uuid : String
  pub time : ℤ
  pub title : String
  pub created_at : Instant
  pub excerpt : String
  pub end_time : Double
  pub trim_modified : ℤ
  pub tags : List String
  pub tags_modified : ℤ

pub record EpisodeSyncResponse : Type 0 where
  pub uuid : String
  pub playing_status : ℤ
  pub played_up_to : ℤ
  pub is_deleted : Bool
  pub starred : Bool
  pub duration : ℤ
  pub bookmarks : List BookmarkResponse
  pub deselected_chapters : String

pub record SyncEpisodesResponse : Type 0 where
  pub episodes : List EpisodeSyncResponse
  pub auto_start_from : Option ℤ
  pub auto_skip_last : Option ℤ
  pub episodes_sort_order : Option ℤ

pub record StarredEpisode : Type 0 where
  pub uuid : String
  pub podcast_uuid : String
  pub duration : ℤ
  pub playing_status : ℤ
  pub played_up_to : ℤ
  pub is_deleted : Bool
  pub starred_modified : ℤ
