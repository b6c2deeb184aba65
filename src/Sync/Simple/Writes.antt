-- ===== src/Sync/Simple/Writes.antt =====
-- Playlist and folder records write one row of the user, under the token; device records write no
-- versioned row.
use podcast_backend.Prelude.{ℕ, ℤ, ◌≡◌, refl, sym, subst, arith, str_eq, or_else}
use podcast_backend.Wire.Sync.{SyncUserPlaylist, SyncUserFolder, SyncUserDevice}
use podcast_backend.Db.Library.{upsert_playlist, upsert_folder, upsert_device}
use podcast_backend.Db.Library.Steps.{upsert_playlist_step, upsert_folder_step}
use podcast_backend.Db.Rows.{Playlist, Folder, Device, device_key}
use podcast_backend.Db.Table.{put}
use podcast_backend.Errs.{ok}
use podcast_backend.Db.Wrote.{Wrote, Writes}
use podcast_backend.Db.Wrote.Rules.{pure-Writes, if-Writes, bind-Writes, lift-Writes}
use podcast_backend.Db.Wrote.Upserts.{Wrote-playlists, Wrote-folders, Wrote-devices}
use podcast_backend.Sync.Env.{Env}
use podcast_backend.Sync.Simple.{
  apply_playlist_record, apply_folder_record, apply_device_record, playlist_params,
  encode_playlist_episodes,
}

module _ (env : Env) (user : ℕ) (token : ℤ) where
  upsert_playlist-Writes :
      (row : Playlist)
      → row.user_id ≡ user
      → row.modified_at ≡ token
      → Writes user token (upsert_playlist env.is_uuid row)
  upsert_playlist-Writes row eu em s a s' h =
      subst (λ z. Wrote user token s.db z.db) (sym (upsert_playlist_step env.is_uuid s row h))
        (Wrote-playlists user token s.db row eu em)

  upsert_folder-Writes :
      (row : Folder)
      → row.user_id ≡ user
      → row.modified_at ≡ token
      → Writes user token (upsert_folder env.is_uuid row)
  upsert_folder-Writes row eu em s a s' h =
      subst (λ z. Wrote user token s.db z.db) (sym (upsert_folder_step env.is_uuid s row h))
        (Wrote-folders user token s.db row eu em)

  pub apply_playlist_record-Writes :
      (rec : SyncUserPlaylist) → Writes user token (apply_playlist_record env user token rec)
  unfolding apply_playlist_record
  apply_playlist_record-Writes rec =
      if-Writes user token (str_eq rec.uuid "") _ _ (λ _. pure-Writes user token tt)
        λ _.
          bind-Writes user token _ _
            (lift-Writes user token (encode_playlist_episodes env rec.episodes))
            λ episodes.
              upsert_playlist-Writes (playlist_params env user token rec episodes) refl refl

  pub apply_folder_record-Writes :
      (rec : SyncUserFolder) → Writes user token (apply_folder_record env user token rec)
  unfolding apply_folder_record
  apply_folder_record-Writes rec =
      if-Writes user token (str_eq rec.folder_uuid "") _ _ (λ _. pure-Writes user token tt)
        λ _. upsert_folder-Writes _ refl refl

  upsert_device-Writes : (row : Device) → Writes user token (upsert_device row)
  unfolding upsert_device
  upsert_device-Writes row s a s' h =
      subst (λ d. Wrote user token s.db d) (device_step h)
        (Wrote-devices user token s.db (put row s.db.devices))
    where
      device_step :
          upsert_device row s ≡ ok (a, s') → record s.db { devices = put row s.db.devices } ≡ s'.db
      device_step e = ground arith

  pub apply_device_record-Writes :
      (rec : SyncUserDevice) → Writes user token (apply_device_record user rec)
  unfolding apply_device_record
  apply_device_record-Writes rec =
      if-Writes user token (str_eq (or_else rec.device_id "") "") _ _
        (λ _. pure-Writes user token tt) λ _. upsert_device-Writes _
