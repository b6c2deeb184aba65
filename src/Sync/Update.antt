-- ===== src/Sync/Update.antt =====
-- syncsvc/engine.go, ApplyUpdate: a batch of records under one fresh token, and every row changed
-- since the client's own.
pub mod Batch
pub mod Parts
pub mod Theorems
pub mod Echo
use podcast_backend.Prelude.{ℕ, ℤ, String, Bool, true, false, ◌||◌, List, [], ◌∷◌}
use podcast_backend.Errs.{Error, Result, ok, err, E, Arg, database}
use podcast_backend.Wire.Sync.{
  Record, podcast, episode, playlist, device, folder, bookmark, unset, SyncUpdateRequest,
  SyncUpdateResponse,
}
use podcast_backend.Db.Tx.{Tx, Db, pure, in_tx, ◌>>=◌, ◌>>◌}
use podcast_backend.Db.Users.{get_user_for_update, set_user_sync_last_modified}
use podcast_backend.Sync.Env.{Env}
use podcast_backend.Sync.Token.{next_token, fresh_token}
use podcast_backend.Sync.Podcast.{apply_podcast_record}
use podcast_backend.Sync.Episode.{apply_episode_record}
use podcast_backend.Sync.Simple.{apply_playlist_record, apply_folder_record, apply_device_record}
use podcast_backend.Sync.Bookmark.{apply_bookmark_record}
use podcast_backend.Sync.Milestones.{detect_milestones}
use podcast_backend.Sync.Collect.{collect_changed_records}

abbrev is_episode : Record → Bool
is_episode (episode rec) = true
is_episode _ = false

-- if hasEpisodeRecords
has_episode_records : List Record → Bool
has_episode_records [] = false
has_episode_records (r ∷ rs) = is_episode r || has_episode_records rs

-- `return nil, errs.E(op, errs.Database, err)` round a transaction.
abbrev pub as_database_error : {A B : Type 0} → String → Result A × B → Result A × B
as_database_error name (ok a, db) = (ok a, db)
as_database_error name (err e, db) =
    (err (E (Arg.op name ∷ Arg.kind database ∷ Arg.cause e ∷ [])), db)

module _ (env : Env) (clock : ℕ → ℤ) (db_now : ℤ) where
  unfoldable pub apply_record : ℕ → ℤ → Record → Tx Unit
  apply_record user token (podcast rec) = apply_podcast_record env user token rec
  apply_record user token (episode rec) = apply_episode_record env user token rec
  apply_record user token (playlist rec) = apply_playlist_record env user token rec
  apply_record user token (folder rec) = apply_folder_record env user token rec
  apply_record user token (bookmark rec) = apply_bookmark_record env clock user token rec
  apply_record user token (device rec) = apply_device_record user rec
  apply_record user token unset = pure tt

  -- The loop over req.Records; the first error ends it.
  unfoldable pub apply_records : ℕ → ℤ → List Record → Tx Unit
  apply_records user token [] = pure tt
  apply_records user token (r ∷ rs) = apply_record user token r >> apply_records user token rs

  unfoldable pub milestones_step : ℕ → Bool → Tx Unit
  milestones_step user true = detect_milestones db_now user
  milestones_step user false = pure tt

  -- The body of the transaction.
  unfoldable pub update_body : ℕ → SyncUpdateRequest → Tx SyncUpdateResponse
  unfolding milestones_step has_episode_records
  update_body user_id req = do
    user ← get_user_for_update user_id
    token ← fresh_token clock user.sync_last_modified
    apply_records user_id token req.records
    milestones_step user_id (has_episode_records req.records)
    set_user_sync_last_modified user_id token
    records ← collect_changed_records env user_id req.last_modified token
    pure (record { last_modified = token; records = records })

  -- ApplyUpdate: the response with the feed URLs that OnUnknownPodcast is then called with.
  unfoldable pub apply_update :
      ℕ → SyncUpdateRequest → Db → Result (SyncUpdateResponse × List String) × Db
  unfolding update_body in_tx
  apply_update user_id req db =
      as_database_error "syncsvc/Engine.ApplyUpdate" (in_tx (update_body user_id req) db)
