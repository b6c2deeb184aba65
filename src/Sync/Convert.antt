-- ===== src/Sync/Convert.antt =====
-- syncsvc/convert.go: rows to wire messages.
use podcast_backend.Prelude.{
  ◌-◌, ◌%◌, ℕ, ℤ, pos, negsuc, eq_ℤ, String, Bool, ◌||◌, not, Option, none, some, List, [], ◌∷◌,
  str_eq, ltb, if◌then◌else◌,
}
use podcast_backend.Wire.{Instant}
use podcast_backend.Wire.Settings.{Settings}
use podcast_backend.Wire.Sync.{
  SyncUserPodcast, SyncUserEpisode, SyncUserPlaylist, SyncUserFolder, SyncUserBookmark,
  SyncPlaylistEpisode,
}
use podcast_backend.Db.Rows.{UserPodcast, UserEpisode, Folder, Playlist, Bookmark}
use podcast_backend.Sync.Env.{Env}

-- A pointer to a wrapper's value, and back: nil stays nil. (int32Ptr, boolPtr, stringPtr,
-- timePtrFromProto; wrapInt32, wrapBool, wrapString, protoFromTimePtr.)
abbrev pub copy_ptr {ℓ} : {A : Type ℓ} → Option A → Option A
copy_ptr none = none
copy_ptr (some v) = some v

-- timestampFromMillis.
abbrev pub timestamp_from_millis : ℤ → Instant
timestamp_from_millis ms = record { millis = ms; nanos = 0 }

-- The low 32 bits of the two's complement.
low_bits : ℤ → ℕ
low_bits (pos n) = n % 4294967296
low_bits (negsuc n) = 4294967295 - n % 4294967296

signed_32 : ℕ → ℤ
signed_32 n = if ltb n 2147483648 then pos n else negsuc (4294967295 - n)

-- int32(v) keeps the low 32 bits.
unfoldable pub to_int32 : ℤ → ℤ
unfolding low_bits signed_32
to_int32 v = signed_32 (low_bits v)

-- len(raw) == 0 || string(raw) == "{}" || string(raw) == "null"
abbrev pub is_blank : String → Bool
is_blank raw = str_eq raw "" || (str_eq raw "{}" || str_eq raw "null")

abbrev pub no_settings : Settings
no_settings _ = none

module _ (env : Env) where
  -- decodePodcastSettings: a text that does not parse is no settings.
  unfoldable pub decode_podcast_settings : String → Settings
  decode_podcast_settings raw =
      if is_blank raw
      then no_settings
      else elim (env.podcast_json.unmarshal raw) [ none ↦ no_settings | some m ↦ m ]

  unfoldable pub user_podcast_to_proto : UserPodcast → SyncUserPodcast
  unfolding decode_podcast_settings
  user_podcast_to_proto row = record {
    uuid = row.podcast_uuid;
    is_deleted = some row.is_deleted;
    subscribed = some row.subscribed;
    auto_start_from = copy_ptr row.auto_start_from;
    episodes_sort_order = copy_ptr row.episodes_sort_order;
    auto_skip_last = copy_ptr row.auto_skip_last;
    folder_uuid = copy_ptr row.folder_uuid;
    sort_position = copy_ptr row.sort_position;
    date_added = copy_ptr row.date_added;
    settings = some (decode_podcast_settings row.settings);
    feed_url = none;
    title = none;
  }

  -- The items that parse, in order; the loop goes on past one that does not.
  decode_items : List String → List SyncPlaylistEpisode
  decode_items [] = []
  decode_items (raw ∷ raws) =
      let rest = decode_items raws in
      elim (env.episode_json.unmarshal raw) [ none ↦ rest | some ep ↦ ep ∷ rest ]

  unfoldable pub decode_playlist_episodes : String → List SyncPlaylistEpisode
  unfolding decode_items
  decode_playlist_episodes raw =
      if str_eq raw ""
      then []
      else elim (env.array_json.unmarshal raw) [ none ↦ [] | some items ↦ decode_items items ]

  unfoldable pub playlist_to_proto : Playlist → SyncUserPlaylist
  unfolding decode_playlist_episodes
  playlist_to_proto row = record {
    uuid = row.uuid;
    original_uuid = row.original_uuid;
    is_deleted = some row.is_deleted;
    title = some row.title;
    all_podcasts = copy_ptr row.all_podcasts;
    podcast_uuids = copy_ptr row.podcast_uuids;
    episode_uuids = copy_ptr row.episode_uuids;
    audio_video = copy_ptr row.audio_video;
    not_downloaded = copy_ptr row.not_downloaded;
    downloaded = copy_ptr row.downloaded;
    downloading = copy_ptr row.downloading;
    finished = copy_ptr row.finished;
    partially_played = copy_ptr row.partially_played;
    unplayed = copy_ptr row.unplayed;
    starred = copy_ptr row.starred;
    manual = copy_ptr row.manual;
    sort_position = copy_ptr row.sort_position;
    sort_type = copy_ptr row.sort_type;
    icon_id = copy_ptr row.icon_id;
    filter_hours = copy_ptr row.filter_hours;
    filter_duration = copy_ptr row.filter_duration;
    longer_than = copy_ptr row.longer_than;
    shorter_than = copy_ptr row.shorter_than;
    show_archived = copy_ptr row.show_archived;
    episode_order = row.episode_order;
    episodes = decode_playlist_episodes row.episodes;
    custom_query = some row.custom_query;
  }

unfoldable pub user_episode_to_proto : UserEpisode → SyncUserEpisode
user_episode_to_proto row = record {
  uuid = row.episode_uuid;
  podcast_uuid = row.podcast_uuid;
  is_deleted = some row.is_deleted;
  is_deleted_modified = some row.is_deleted_modified;
  duration = some row.duration;
  duration_modified = some row.duration_modified;
  playing_status = some row.playing_status;
  playing_status_modified = some row.playing_status_modified;
  played_up_to = some row.played_up_to;
  played_up_to_modified = some row.played_up_to_modified;
  starred = some row.starred;
  starred_modified = some row.starred_modified;
  deselected_chapters = row.deselected_chapters;
  deselected_chapters_modified = some row.deselected_chapters_modified;
}

unfoldable pub folder_to_proto : Folder → SyncUserFolder
folder_to_proto row = record {
  folder_uuid = row.folder_uuid;
  is_deleted = row.is_deleted;
  name = row.name;
  color = row.color;
  sort_position = row.sort_position;
  podcasts_sort_type = row.podcasts_sort_type;
  date_added = copy_ptr row.date_added;
}

abbrev is_set : ℤ → Bool
is_set stamp = not (eq_ℤ stamp (pos 0))

abbrev when : {A : Type 0} → Bool → A → Option A
when b a = if b then some a else none

-- The highlight fields are emitted when set or when a trim stamp exists; a stamp or a tag set only
-- when its stamp is not zero.
unfoldable pub bookmark_to_proto : Bookmark → SyncUserBookmark
bookmark_to_proto row = record {
  bookmark_uuid = row.bookmark_uuid;
  podcast_uuid = row.podcast_uuid;
  episode_uuid = row.episode_uuid;
  created_at = some row.created_at;
  time = some row.time_secs;
  title = some row.title;
  title_modified = some row.title_modified;
  is_deleted = some row.is_deleted;
  is_deleted_modified = some row.is_deleted_modified;
  excerpt = when (not (str_eq row.excerpt "") || is_set row.trim_modified) row.excerpt;
  end_time = when (not (str_eq row.excerpt "") || is_set row.trim_modified) row.end_time_secs;
  trim_modified = when (is_set row.trim_modified) row.trim_modified;
  tags = if is_set row.tags_modified then row.tags else [];
  tags_modified = when (is_set row.tags_modified) row.tags_modified;
}
