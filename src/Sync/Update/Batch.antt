-- ===== src/Sync/Update/Batch.antt =====
-- A batch of records writes rows of this user under this token, and nothing else of the library.
use podcast_backend.Prelude.{ℕ, ℤ, Bool, true, false, List, [], ◌∷◌}
use podcast_backend.Wire.Sync.{Record, podcast, episode, playlist, device, folder, bookmark, unset}
use podcast_backend.Db.Wrote.{Writes}
use podcast_backend.Db.Wrote.Rules.{pure-Writes, bind-Writes}
use podcast_backend.Sync.Env.{Env}
use podcast_backend.Sync.Podcast.Writes.{apply_podcast_record-Writes}
use podcast_backend.Sync.Episode.Writes.{apply_episode_record-Writes}
use podcast_backend.Sync.Simple.Writes.{
  apply_playlist_record-Writes, apply_folder_record-Writes, apply_device_record-Writes,
}
use podcast_backend.Sync.Bookmark.Writes.{apply_bookmark_record-Writes}
use podcast_backend.Sync.Milestones.Writes.{detect_milestones-Writes}
use podcast_backend.Sync.Update.{apply_record, apply_records, milestones_step}

module _ (env : Env) (clock : ℕ → ℤ) (db_now : ℤ) (user : ℕ) (token : ℤ) where
  apply_record-Writes :
      (r : Record) → Writes user token (apply_record env clock db_now user token r)
  unfolding apply_record
  apply_record-Writes (podcast rec) = apply_podcast_record-Writes env user token rec
  apply_record-Writes (episode rec) = apply_episode_record-Writes env user token rec
  apply_record-Writes (playlist rec) = apply_playlist_record-Writes env user token rec
  apply_record-Writes (folder rec) = apply_folder_record-Writes env user token rec
  apply_record-Writes (bookmark rec) = apply_bookmark_record-Writes env clock user token rec
  apply_record-Writes (device rec) = apply_device_record-Writes env user token rec
  apply_record-Writes unset = pure-Writes user token tt

  pub apply_records-Writes :
      (rs : List Record) → Writes user token (apply_records env clock db_now user token rs)
  unfolding apply_records
  apply_records-Writes [] = pure-Writes user token tt
  apply_records-Writes (r ∷ rs) =
      bind-Writes user token _ _ (apply_record-Writes r) (λ _. apply_records-Writes rs)

  pub milestones_step-Writes :
      (b : Bool) → Writes user token (milestones_step env clock db_now user b)
  unfolding milestones_step
  milestones_step-Writes true = detect_milestones-Writes db_now user token
  milestones_step-Writes false = pure-Writes user token tt
