-- ===== src/Sync/Simple.antt =====
-- syncsvc/engine.go: the records that replace their row whole (playlists, folders, devices).
pub mod Writes
use podcast_backend.Prelude.{
  ℕ, ℤ, pos, String, false, Option, none, some, List, [], ◌∷◌, str_eq, or_else, if◌then◌else◌,
}
use podcast_backend.Errs.{Result, ok, err, E, Arg, native, invalid_json, internal}
use podcast_backend.Wire.Sync.{
  SyncUserPlaylist, SyncUserFolder, SyncUserDevice, SyncPlaylistEpisode,
}
use podcast_backend.Db.Rows.{Playlist}
use podcast_backend.Db.Tx.{Tx, pure, lift, ◌>>=◌}
use podcast_backend.Db.Library.{upsert_playlist, upsert_folder, upsert_device}
use podcast_backend.Sync.Env.{Env}
use podcast_backend.Sync.Convert.{copy_ptr}

module _ (env : Env) where
  codec_error {ℓ} : {A : Type ℓ} → Result A
  codec_error = err (
      E (
        Arg.op "syncsvc/encodePlaylistEpisodes"
        ∷ Arg.kind internal
        ∷ Arg.cause (native invalid_json)
        ∷ []))

  -- The loop that marshals each item; the first failure ends it.
  encode_items : List SyncPlaylistEpisode → Option (List String)
  encode_items [] = some []
  encode_items (ep ∷ eps) =
      let rest = encode_items eps in
      elim (env.episode_json.marshal ep) [
        | none ↦ none
        | some raw ↦ elim rest [ none ↦ none | some raws ↦ some (raw ∷ raws) ]
      ]

  -- encodePlaylistEpisodes
  unfoldable pub encode_playlist_episodes : List SyncPlaylistEpisode → Result String
  unfolding encode_items codec_error
  encode_playlist_episodes eps = elim (encode_items eps) [
    | none ↦ codec_error
    | some items ↦ elim (env.array_json.marshal items) [ none ↦ codec_error | some raw ↦ ok raw ]
  ]

  unfoldable pub playlist_params : ℕ → ℤ → SyncUserPlaylist → String → Playlist
  playlist_params user token rec episodes = record {
    user_id = user;
    uuid = rec.uuid;
    original_uuid = rec.original_uuid;
    title = or_else rec.title "";
    is_deleted = or_else rec.is_deleted false;
    all_podcasts = copy_ptr rec.all_podcasts;
    podcast_uuids = copy_ptr rec.podcast_uuids;
    episode_uuids = copy_ptr rec.episode_uuids;
    audio_video = copy_ptr rec.audio_video;
    not_downloaded = copy_ptr rec.not_downloaded;
    downloaded = copy_ptr rec.downloaded;
    downloading = copy_ptr rec.downloading;
    finished = copy_ptr rec.finished;
    partially_played = copy_ptr rec.partially_played;
    unplayed = copy_ptr rec.unplayed;
    starred = copy_ptr rec.starred;
    manual = copy_ptr rec.manual;
    sort_position = copy_ptr rec.sort_position;
    sort_type = copy_ptr rec.sort_type;
    icon_id = copy_ptr rec.icon_id;
    filter_hours = copy_ptr rec.filter_hours;
    filter_duration = copy_ptr rec.filter_duration;
    longer_than = copy_ptr rec.longer_than;
    shorter_than = copy_ptr rec.shorter_than;
    show_archived = copy_ptr rec.show_archived;
    episode_order = rec.episode_order;
    episodes = episodes;
    modified_at = token;
    custom_query = or_else rec.custom_query "";
  }

  unfoldable pub apply_playlist_record : ℕ → ℤ → SyncUserPlaylist → Tx Unit
  unfolding upsert_playlist playlist_params
  apply_playlist_record user token rec = if str_eq rec.uuid "" then pure tt else do
    episodes ← lift (encode_playlist_episodes rec.episodes)
    upsert_playlist env.is_uuid (playlist_params user token rec episodes)

  unfoldable pub apply_folder_record : ℕ → ℤ → SyncUserFolder → Tx Unit
  unfolding upsert_folder
  apply_folder_record user token rec =
      if str_eq rec.folder_uuid ""
      then pure tt
      else upsert_folder env.is_uuid (record {
        user_id = user;
        folder_uuid = rec.folder_uuid;
        name = rec.name;
        color = rec.color;
        sort_position = rec.sort_position;
        podcasts_sort_type = rec.podcasts_sort_type;
        date_added = copy_ptr rec.date_added;
        is_deleted = rec.is_deleted;
        modified_at = token;
      })

unfoldable pub apply_device_record : ℕ → SyncUserDevice → Tx Unit
unfolding upsert_device
apply_device_record user rec =
    let device_id = or_else rec.device_id "" in
    if str_eq device_id ""
    then pure tt
    else upsert_device (record {
      user_id = user;
      device_id = device_id;
      device_type = or_else rec.device_type (pos 0);
      times_started_at = or_else rec.times_started_at (pos 0);
      time_silence_removal = or_else rec.time_silence_removal (pos 0);
      time_variable_speed = or_else rec.time_variable_speed (pos 0);
      time_intro_skipping = or_else rec.time_intro_skipping (pos 0);
      time_skipping = or_else rec.time_skipping (pos 0);
      time_listened = or_else rec.time_listened (pos 0);
    })
