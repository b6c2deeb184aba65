-- ===== src/Db/Rows.antt =====
-- db/models.go: the rows of the tables that the sync engine works on. Columns that no statement of
-- the engine writes or reads are left out (password hashes, devices' push columns, added_at,
-- updated_at, and such).
use podcast_backend.Prelude.{ℕ, ℤ, String, Bool, Option, List}
use podcast_backend.Wire.{Instant, Double}
use podcast_backend.Db.Table.{Keyed}

-- `deleted` is deleted_at IS NOT NULL.
pub record User : Type 0 where
  pub id : ℕ
  pub deleted : Bool
  pub sync_last_modified : ℤ
  pub up_next_modified : ℤ
  pub history_modified : ℤ
  pub history_cleared_at_ms : ℤ

-- Of the crawled catalog, the columns that the sync engine reads.
pub record Podcast : Type 0 where
  pub uuid : String
  pub feed_url : String
  pub title : String
  pub author : String
  pub description : String
  pub website_url : String
  pub latest_episode_uuid : Option String
  pub latest_episode_published : Option Instant

pub record UserPodcast : Type 0 where
  pub user_id : ℕ
  pub podcast_uuid : String
  pub subscribed : Bool
  pub is_deleted : Bool
  pub auto_start_from : Option ℤ
  pub auto_skip_last : Option ℤ
  pub episodes_sort_order : Option ℤ
  pub folder_uuid : Option String
  pub sort_position : Option ℤ
  pub date_added : Option Instant
  pub settings : String
  pub modified_at : ℤ
  pub notify_enabled : Bool
  pub synced_title : String
  pub synced_feed_url : String

pub record UserEpisode : Type 0 where
  pub user_id : ℕ
  pub episode_uuid : String
  pub podcast_uuid : String
  pub playing_status : ℤ
  pub playing_status_modified : ℤ
  pub played_up_to : ℤ
  pub played_up_to_modified : ℤ
  pub starred : Bool
  pub starred_modified : ℤ
  pub is_deleted : Bool
  pub is_deleted_modified : ℤ
  pub duration : ℤ
  pub duration_modified : ℤ
  pub deselected_chapters : String
  pub deselected_chapters_modified : ℤ
  pub modified_at : ℤ

pub record Folder : Type 0 where
  pub user_id : ℕ
  pub folder_uuid : String
  pub name : String
  pub color : ℤ
  pub sort_position : ℤ
  pub podcasts_sort_type : ℤ
  pub date_added : Option Instant
  pub is_deleted : Bool
  pub modified_at : ℤ

pub record Playlist : Type 0 where
  pub user_id : ℕ
  pub uuid : String
  pub original_uuid : String
  pub title : String
  pub is_deleted : Bool
  pub all_podcasts : Option Bool
  pub podcast_uuids : Option String
  pub episode_uuids : Option String
  pub audio_video : Option ℤ
  pub not_downloaded : Option Bool
  pub downloaded : Option Bool
  pub downloading : Option Bool
  pub finished : Option Bool
  pub partially_played : Option Bool
  pub unplayed : Option Bool
  pub starred : Option Bool
  pub manual : Option Bool
  pub sort_position : Option ℤ
  pub sort_type : Option ℤ
  pub icon_id : Option ℤ
  pub filter_hours : Option ℤ
  pub filter_duration : Option Bool
  pub longer_than : Option ℤ
  pub shorter_than : Option ℤ
  pub show_archived : Option Bool
  pub episode_order : List String
  pub episodes : String
  pub modified_at : ℤ
  pub custom_query : String

pub record Bookmark : Type 0 where
  pub user_id : ℕ
  pub bookmark_uuid : String
  pub podcast_uuid : String
  pub episode_uuid : String
  pub time_secs : ℤ
  pub title : String
  pub title_modified : ℤ
  pub created_at : Instant
  pub is_deleted : Bool
  pub is_deleted_modified : ℤ
  pub modified_at : ℤ
  pub excerpt : String
  pub end_time_secs : Double
  pub trim_modified : ℤ
  pub tags : List String
  pub tags_modified : ℤ

pub record Device : Type 0 where
  pub user_id : ℕ
  pub device_id : String
  pub device_type : ℤ
  pub times_started_at : ℤ
  pub time_silence_removal : ℤ
  pub time_variable_speed : ℤ
  pub time_intro_skipping : ℤ
  pub time_skipping : ℤ
  pub time_listened : ℤ

pub record UpNextItem : Type 0 where
  pub user_id : ℕ
  pub episode_uuid : String
  pub podcast_uuid : String
  pub title : String
  pub url : String
  pub published : Option Instant
  pub position : ℕ

pub record History : Type 0 where
  pub user_id : ℕ
  pub episode_uuid : String
  pub podcast_uuid : String
  pub title : String
  pub url : String
  pub published : Option Instant
  pub modified_at : ℤ
  pub is_deleted : Bool

pub record Milestone : Type 0 where
  pub user_id : ℕ
  pub kind : ℕ
  pub tier : ℕ
  pub crossed_at : ℤ

pub record UserSettings : Type 0 where
  pub user_id : ℕ
  pub settings : String
  pub modified_at : ℤ

-- The primary keys.
instance abbrev pub podcast_key : Keyed UserPodcast
podcast_key = record { user = λ r. r.user_id; name = λ r. r.podcast_uuid }

instance abbrev pub episode_key : Keyed UserEpisode
episode_key = record { user = λ r. r.user_id; name = λ r. r.episode_uuid }

instance abbrev pub folder_key : Keyed Folder
folder_key = record { user = λ r. r.user_id; name = λ r. r.folder_uuid }

instance abbrev pub playlist_key : Keyed Playlist
playlist_key = record { user = λ r. r.user_id; name = λ r. r.uuid }

instance abbrev pub bookmark_key : Keyed Bookmark
bookmark_key = record { user = λ r. r.user_id; name = λ r. r.bookmark_uuid }

instance abbrev pub device_key : Keyed Device
device_key = record { user = λ r. r.user_id; name = λ r. r.device_id }

instance abbrev pub up_next_key : Keyed UpNextItem
up_next_key = record { user = λ r. r.user_id; name = λ r. r.episode_uuid }

instance abbrev pub history_key : Keyed History
history_key = record { user = λ r. r.user_id; name = λ r. r.episode_uuid }

-- user_settings and users have the user's id alone for their key.
instance abbrev pub settings_key : Keyed UserSettings
settings_key = record { user = λ r. r.user_id; name = λ r. "" }

instance abbrev pub user_key : Keyed User
user_key = record { user = λ r. r.id; name = λ r. "" }
