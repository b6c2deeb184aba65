-- ===== src/Sync/Realtime.antt =====
-- syncsvc/updates.go: the endpoints that write one thing at a time. The token doubles as the
-- modified time of each field that is set.
pub mod Updated
pub mod Effects
use podcast_backend.Prelude.{
  ℕ, ℤ, pos, eq_ℤ, String, Bool, true, false, ◌||◌, Option, none, some, List, [], ◌∷◌, str_eq,
  or_else, if◌then◌else◌,
}
use podcast_backend.Errs.{Result, err, E, Arg, invalid}
use podcast_backend.Wire.Settings.{Settings, NamedSettings}
use podcast_backend.Wire.Sync.{UpdateEpisodeRequest, UpdateEpisodeStarRequest}
use podcast_backend.Db.Rows.{UserEpisode, UserSettings}
use podcast_backend.Db.Tx.{Tx, Db, pure, lift, or_no_rows, in_tx, ◌>>=◌, ◌>>◌}
use podcast_backend.Db.Users.{get_user_for_update, set_user_sync_last_modified}
use podcast_backend.Db.Library.{get_user_episode, upsert_user_episode}
use podcast_backend.Db.Queue.{get_user_settings, upsert_user_settings}
use podcast_backend.Sync.Env.{Env}
use podcast_backend.Sync.Token.{fresh_token}
use podcast_backend.Sync.Episode.{new_episode, set_podcast}
use podcast_backend.Sync.Settings.{
  decode_stored_settings, encode_stored_settings, merge_changed_settings, apply_legacy_settings,
  build_named_settings_response,
}
use podcast_backend.Sync.Update.{as_database_error}

pub record NamedSettingsRequest : Type 0 where
  pub changed_settings : Option Settings
  pub settings : Option NamedSettings

-- No value, beside the feed URLs that in_tx hands out.
abbrev pub Done : Type 0
Done = Unit × List String

-- `row.Settings`, and nil where the user has no row.
abbrev pub stored_raw : Option UserSettings → String
stored_raw none = ""
stored_raw (some row) = row.settings

-- if req.Position != nil
unfoldable pub set_position : ℤ → Option ℤ → UserEpisode → UserEpisode
set_position token none row = row
set_position token (some p) row = record row { played_up_to = p; played_up_to_modified = token }

-- if req.Status != 0
unfoldable pub set_status : ℤ → ℤ → UserEpisode → UserEpisode
set_status token status row =
    if eq_ℤ status (pos 0)
    then row
    else record row { playing_status = status; playing_status_modified = token }

-- if req.Duration != 0
unfoldable pub set_duration : ℤ → ℤ → UserEpisode → UserEpisode
set_duration token duration row =
    if eq_ℤ duration (pos 0)
    then row
    else record row { duration = duration; duration_modified = token }

-- The parameters of the upsert, or none where the episode's podcast is not known.
unfoldable pub update_params : ℤ → UpdateEpisodeRequest → UserEpisode → Option UserEpisode
unfolding set_position set_status set_duration
update_params token req existing =
    let params = set_podcast req.podcast (record existing { modified_at = token }) in
    if str_eq params.podcast_uuid ""
    then none
    else some (
        set_duration token req.duration
          (set_status token req.status (set_position token req.position params)))

unfoldable pub star_params : ℤ → UpdateEpisodeStarRequest → UserEpisode → UserEpisode
star_params token req existing =
    record (set_podcast req.podcast (record existing { modified_at = token })) {
      starred = req.star;
      starred_modified = token;
    }

module _ (env : Env) (clock : ℕ → ℤ) where
  -- if changed
  unfoldable pub store_settings : ℕ → ℤ → Settings → Bool → Tx Unit
  store_settings user token stored false = pure tt
  store_settings user token stored true = do
    raw ← lift (encode_stored_settings env stored)
    upsert_user_settings (record { user_id = user; settings = raw; modified_at = token })
    set_user_sync_last_modified user token

  -- The two merges: what is stored afterwards, and whether either changed it.
  unfoldable pub merge_settings : Settings → NamedSettingsRequest → ℤ → Settings × Bool
  merge_settings stored req token =
      let merged = merge_changed_settings env stored req.changed_settings in
      let applied = apply_legacy_settings env merged.0 req.settings token in
      (applied.0, merged.1 || applied.1)

  unfoldable pub settings_body : ℕ → NamedSettingsRequest → Tx Settings
  unfolding store_settings merge_settings
  settings_body user_id req = do
    user ← get_user_for_update user_id
    row ← or_no_rows (get_user_settings user_id)
    stored ← lift (decode_stored_settings env (stored_raw row))
    token ← fresh_token clock user.sync_last_modified
    store_settings user_id token (merge_settings stored req token).0
        (merge_settings stored req token).1
    pure (build_named_settings_response env (merge_settings stored req token).0)

  -- UpdateSettings
  unfoldable pub update_settings :
      ℕ → NamedSettingsRequest → Db → Result (Settings × List String) × Db
  unfolding settings_body in_tx
  update_settings user_id req db =
      as_database_error "syncsvc/Engine.UpdateSettings" (in_tx (settings_body user_id req) db)

  unfoldable pub store_episode : ℕ → ℤ → Option UserEpisode → Tx Unit
  store_episode user token none = pure tt
  store_episode user token (some row) =
      upsert_user_episode env.is_uuid row >> set_user_sync_last_modified user token

  unfoldable pub episode_body : ℕ → UpdateEpisodeRequest → Tx Unit
  unfolding update_params store_episode
  episode_body user_id req = do
    user ← get_user_for_update user_id
    token ← fresh_token clock user.sync_last_modified
    found ← or_no_rows (get_user_episode env.is_uuid user_id req.uuid)
    store_episode user_id token
        (update_params token req (or_else found (new_episode user_id req.uuid)))

  required : {A : Type 0} → String → Result A
  required name =
      err (E (Arg.op name ∷ Arg.kind invalid ∷ Arg.text "episode uuid is required" ∷ []))

  -- UpdateEpisode
  unfoldable pub update_episode : ℕ → UpdateEpisodeRequest → Db → Result Done × Db
  unfolding episode_body in_tx required
  update_episode user_id req db =
      if str_eq req.uuid ""
      then (required "syncsvc/Engine.UpdateEpisode", db)
      else as_database_error "syncsvc/Engine.UpdateEpisode" (in_tx (episode_body user_id req) db)

  unfoldable pub star_body : ℕ → UpdateEpisodeStarRequest → Tx Unit
  unfolding star_params store_episode
  star_body user_id req = do
    user ← get_user_for_update user_id
    token ← fresh_token clock user.sync_last_modified
    found ← or_no_rows (get_user_episode env.is_uuid user_id req.uuid)
    store_episode user_id token
        (some (star_params token req (or_else found (new_episode user_id req.uuid))))

  -- UpdateEpisodeStar
  unfoldable pub update_episode_star : ℕ → UpdateEpisodeStarRequest → Db → Result Done × Db
  unfolding star_body in_tx required
  update_episode_star user_id req db =
      if str_eq req.uuid ""
      then (required "syncsvc/Engine.UpdateEpisodeStar", db)
      else as_database_error "syncsvc/Engine.UpdateEpisodeStar" (in_tx (star_body user_id req) db)
