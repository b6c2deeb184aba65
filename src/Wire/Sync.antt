-- ===== src/Wire/Sync.antt =====
-- The records of user/sync/update, and the real-time playback requests.
use podcast_backend.Prelude.{ℤ, String, Bool, Option, List}
use podcast_backend.Wire.{Instant, Double}
use podcast_backend.Wire.Settings.{Settings}

pub record SyncUserPodcast : Type 0 where
  pub uuid : String
  pub is_deleted : Option Bool
  pub subscribed : Option Bool
  pub auto_start_from : Option ℤ
  pub episodes_sort_order : Option ℤ
  pub auto_skip_last : Option ℤ
  pub folder_uuid : Option String
  pub sort_position : Option ℤ
  pub date_added : Option Instant
  pub settings : Option Settings
  pub feed_url : Option String
  pub title : Option String

pub record SyncUserEpisode : Type 0 where
  pub uuid : String
  pub podcast_uuid : String
  pub is_deleted : Option Bool
  pub is_deleted_modified : Option ℤ
  pub duration : Option ℤ
  pub duration_modified : Option ℤ
  pub playing_status : Option ℤ
  pub playing_status_modified : Option ℤ
  pub played_up_to : Option ℤ
  pub played_up_to_modified : Option ℤ
  pub starred : Option Bool
  pub starred_modified : Option ℤ
  pub deselected_chapters : String
  pub deselected_chapters_modified : Option ℤ

pub record SyncPlaylistEpisode : Type 0 where
  pub episode : String
  pub podcast : String
  pub added : Option ℤ
  pub published : Option Instant
  pub title : Option String
  pub url : Option String
  pub podcast_slug : Option String
  pub episode_slug : Option String

pub record SyncUserPlaylist : Type 0 where
  pub uuid : String
  pub original_uuid : String
  pub is_deleted : Option Bool
  pub title : Option String
  pub all_podcasts : Option Bool
  pub podcast_uuids : Option String
  pub episode_uuids : Option String
  pub audio_video : Option ℤ
  pub not_downloaded : Option Bool
  pub downloaded : Option Bool
  pub downloading : Option Bool
  pub finished : Option Bool
  pub partially_played : Option Bool
  pub unplayed : Option Bool
  pub starred : Option Bool
  pub manual : Option Bool
  pub sort_position : Option ℤ
  pub sort_type : Option ℤ
  pub icon_id : Option ℤ
  pub filter_hours : Option ℤ
  pub filter_duration : Option Bool
  pub longer_than : Option ℤ
  pub shorter_than : Option ℤ
  pub show_archived : Option Bool
  pub episode_order : List String
  pub episodes : List SyncPlaylistEpisode
  pub custom_query : Option String

pub record SyncUserFolder : Type 0 where
  pub folder_uuid : String
  pub is_deleted : Bool
  pub name : String
  pub color : ℤ
  pub sort_position : ℤ
  pub podcasts_sort_type : ℤ
  pub date_added : Option Instant

-- The ai_* fields are never read; they are left out.
pub record SyncUserBookmark : Type 0 where
  pub bookmark_uuid : String
  pub podcast_uuid : String
  pub episode_uuid : String
  pub created_at : Option Instant
  pub time : Option ℤ
  pub title : Option String
  pub title_modified : Option ℤ
  pub is_deleted : Option Bool
  pub is_deleted_modified : Option ℤ
  pub excerpt : Option String
  pub end_time : Option Double
  pub trim_modified : Option ℤ
  pub tags : List String
  pub tags_modified : Option ℤ

pub record SyncUserDevice : Type 0 where
  pub device_id : Option String
  pub device_type : Option ℤ
  pub times_started_at : Option ℤ
  pub time_silence_removal : Option ℤ
  pub time_variable_speed : Option ℤ
  pub time_intro_skipping : Option ℤ
  pub time_skipping : Option ℤ
  pub time_listened : Option ℤ

-- The oneof of Record; `unset` is a oneof that this server does not know.
pub data Record : Type 0 where
  podcast : SyncUserPodcast → Record
  episode : SyncUserEpisode → Record
  playlist : SyncUserPlaylist → Record
  device : SyncUserDevice → Record
  folder : SyncUserFolder → Record
  bookmark : SyncUserBookmark → Record
  unset : Record

-- Of the request's fields, those that the engine reads.
pub record SyncUpdateRequest : Type 0 where
  pub last_modified : ℤ
  pub records : List Record

pub record SyncUpdateResponse : Type 0 where
  pub last_modified : ℤ
  pub records : List Record

pub record UpdateEpisodeRequest : Type 0 where
  pub uuid : String
  pub podcast : String
  pub position : Option ℤ
  pub status : ℤ
  pub duration : ℤ

pub record UpdateEpisodeStarRequest : Type 0 where
  pub uuid : String
  pub podcast : String
  pub star : Bool
