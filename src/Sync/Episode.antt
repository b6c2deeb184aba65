-- ===== src/Sync/Episode.antt =====
-- syncsvc/engine.go, applyEpisodeRecord: a playback record onto the stored row, each field by the
-- client's own stamp, the last writer winning.
pub mod Laws
pub mod Writes
use podcast_backend.Prelude.{
  ℕ, ℤ, pos, ltb_ℤ, String, Bool, true, false, ◌&&◌, Option, none, some, str_eq, or_else,
  if◌then◌else◌,
}
use podcast_backend.Wire.Sync.{SyncUserEpisode}
use podcast_backend.Db.Rows.{UserEpisode}
use podcast_backend.Db.Tx.{Tx, pure, or_no_rows, ◌>>=◌}
use podcast_backend.Db.Library.{get_user_episode, upsert_user_episode}
use podcast_backend.Sync.Env.{Env}

-- modifiedAfter
abbrev pub modified_after : Option ℤ → ℤ → Bool
modified_after none existing = false
modified_after (some v) existing = ltb_ℤ existing v

abbrev pub present {ℓ} : {A : Type ℓ} → Option A → Bool
present none = false
present (some a) = true

-- db.UserEpisode{UserID: userID, EpisodeUuid: uuid, PlayingStatus: 1}
abbrev pub new_episode : ℕ → String → UserEpisode
new_episode user uuid = record {
  user_id = user;
  episode_uuid = uuid;
  podcast_uuid = "";
  playing_status = pos 1;
  playing_status_modified = pos 0;
  played_up_to = pos 0;
  played_up_to_modified = pos 0;
  starred = false;
  starred_modified = pos 0;
  is_deleted = false;
  is_deleted_modified = pos 0;
  duration = pos 0;
  duration_modified = pos 0;
  deselected_chapters = "";
  deselected_chapters_modified = pos 0;
  modified_at = pos 0;
}

-- One guarded assignment of a value and its stamp: `if value != nil && modifiedAfter(…)`.
unfoldable pub newer {ℓ} : {A : Type ℓ} → Option A → Option ℤ → A → ℤ → A
newer value stamp old old_stamp =
    if present value && modified_after stamp old_stamp then or_else value old else old

unfoldable pub newer_stamp {ℓ} : {A : Type ℓ} → Option A → Option ℤ → ℤ → ℤ
newer_stamp value stamp old_stamp =
    if present value && modified_after stamp old_stamp then or_else stamp old_stamp else old_stamp

-- `if rec.PodcastUuid != ""`
abbrev pub podcast_after : String → String → String
podcast_after uuid old = if str_eq uuid "" then old else uuid

abbrev pub set_podcast : String → UserEpisode → UserEpisode
set_podcast uuid row = record row { podcast_uuid = podcast_after uuid row.podcast_uuid }

-- The assignments of a record: its podcast, which has no stamp, and the six guarded ones.
unfoldable pub merge_episode : ℤ → SyncUserEpisode → UserEpisode → UserEpisode
merge_episode token rec existing = record existing {
  podcast_uuid = podcast_after rec.podcast_uuid existing.podcast_uuid;
  playing_status =
      newer rec.playing_status rec.playing_status_modified existing.playing_status
        existing.playing_status_modified;
  playing_status_modified =
      newer_stamp rec.playing_status rec.playing_status_modified existing.playing_status_modified;
  played_up_to =
      newer rec.played_up_to rec.played_up_to_modified existing.played_up_to
        existing.played_up_to_modified;
  played_up_to_modified =
      newer_stamp rec.played_up_to rec.played_up_to_modified existing.played_up_to_modified;
  starred = newer rec.starred rec.starred_modified existing.starred existing.starred_modified;
  starred_modified = newer_stamp rec.starred rec.starred_modified existing.starred_modified;
  is_deleted =
      newer rec.is_deleted rec.is_deleted_modified existing.is_deleted existing.is_deleted_modified;
  is_deleted_modified =
      newer_stamp rec.is_deleted rec.is_deleted_modified existing.is_deleted_modified;
  duration = newer rec.duration rec.duration_modified existing.duration existing.duration_modified;
  duration_modified = newer_stamp rec.duration rec.duration_modified existing.duration_modified;
  deselected_chapters =
      newer (some rec.deselected_chapters) rec.deselected_chapters_modified
        existing.deselected_chapters existing.deselected_chapters_modified;
  deselected_chapters_modified =
      newer_stamp (some rec.deselected_chapters) rec.deselected_chapters_modified
        existing.deselected_chapters_modified;
  modified_at = token;
}

module _ (env : Env) where
  -- The row to write, or none where the record is skipped for want of a podcast. The code leaves
  -- before the guarded assignments, which touch the parameters alone.
  unfoldable pub episode_params : ℤ → SyncUserEpisode → UserEpisode → Option UserEpisode
  unfolding merge_episode
  episode_params token rec existing =
      let params = merge_episode token rec existing in
      if str_eq params.podcast_uuid "" then none else some params

  write_episode : Option UserEpisode → Tx Unit
  write_episode none = pure tt
  write_episode (some row) = upsert_user_episode env.is_uuid row

  unfoldable pub apply_episode_record : ℕ → ℤ → SyncUserEpisode → Tx Unit
  unfolding get_user_episode upsert_user_episode episode_params write_episode
  apply_episode_record user token rec = if str_eq rec.uuid "" then pure tt else do
    found ← or_no_rows (get_user_episode env.is_uuid user rec.uuid)
    write_episode (episode_params token rec (or_else found (new_episode user rec.uuid)))
