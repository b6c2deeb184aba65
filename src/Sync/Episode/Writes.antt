-- ===== src/Sync/Episode/Writes.antt =====
-- A playback record writes at most one row of the user, under the token.
use podcast_backend.Prelude.{
  ℕ, ℤ, String, Option, none, some, ◌≡◌, refl, sym, ap, subst, inl, inr, str_eq, or_else,
  Bool-cases,
}
use podcast_backend.Errs.{ok}
use podcast_backend.Wire.Sync.{SyncUserEpisode}
use podcast_backend.Db.Table.{find}
use podcast_backend.Db.Table.Laws.{find-at, at-eq}
use podcast_backend.Db.Rows.{UserEpisode, episode_key}
use podcast_backend.Db.Tx.{Session, or_no_rows}
use podcast_backend.Db.Library.{get_user_episode, upsert_user_episode}
use podcast_backend.Db.Library.Steps.{get_user_episode_step, upsert_user_episode_step}
use podcast_backend.Db.Wrote.{Wrote, Writes}
use podcast_backend.Db.Wrote.Rules.{pure-Writes, if-Writes, reads-Writes}
use podcast_backend.Db.Wrote.Upserts.{Wrote-episodes}
use podcast_backend.Sync.Env.{Env}
use podcast_backend.Sync.Episode.{
  apply_episode_record, write_episode, episode_params, merge_episode, new_episode,
}

module _ (env : Env) (user : ℕ) (token : ℤ) where
  pub stored_episode_user :
      (s : Session) (uuid : String) (found : Option UserEpisode)
      → found ≡ find user uuid s.db.episodes
      → (or_else found (new_episode user uuid)).user_id ≡ user
  stored_episode_user s uuid none e = refl
  stored_episode_user s uuid (some r) e =
      (at-eq user uuid r (find-at user uuid r s.db.episodes (sym e))).0

  pub upsert_user_episode-Writes :
      (row : UserEpisode)
      → row.user_id ≡ user
      → row.modified_at ≡ token
      → Writes user token (upsert_user_episode env.is_uuid row)
  upsert_user_episode-Writes row eu em s a s' h =
      subst (λ z. Wrote user token s.db z.db) (sym (upsert_user_episode_step env.is_uuid s row h))
        (Wrote-episodes user token s.db row eu em)

  write_episode-Writes :
      (rec : SyncUserEpisode) (row : UserEpisode)
      → row.user_id ≡ user
      → Writes user token (write_episode env (episode_params env token rec row))
  unfolding write_episode episode_params merge_episode
  write_episode-Writes rec row eu s a s' h =
      elim (Bool-cases (str_eq (merge_episode token rec row).podcast_uuid "")) [
        | inl e ↦ pure-Writes user token tt s a s' (rw (e, write_episode) at h)
        | inr e ↦
            upsert_user_episode-Writes (merge_episode token rec row) eu refl s a s'
              (rw (e, write_episode) at h)
      ]

  -- The stored row, or the blank one, is the user's.
  pub owned_read :
      (uuid : String) (s : Session) (found : Option UserEpisode) (s' : Session)
      → or_no_rows (get_user_episode env.is_uuid user uuid) s ≡ ok (found, s')
      → (s'.db ≡ s.db) × ((or_else found (new_episode user uuid)).user_id ≡ user)
  owned_read uuid s found s' h =
      let (es, ef) = get_user_episode_step env.is_uuid s user uuid h in
      (ap (λ z. z.db) es, stored_episode_user s uuid found ef)

  pub apply_episode_record-Writes :
      (rec : SyncUserEpisode) → Writes user token (apply_episode_record env user token rec)
  unfolding apply_episode_record
  apply_episode_record-Writes rec =
      if-Writes user token (str_eq rec.uuid "") _ _ (λ _. pure-Writes user token tt)
        λ _.
          reads-Writes user token
            (λ found. (or_else found (new_episode user rec.uuid)).user_id ≡ user)
            (or_no_rows (get_user_episode env.is_uuid user rec.uuid)) _ (owned_read rec.uuid)
            (λ found owned.
              write_episode-Writes rec (or_else found (new_episode user rec.uuid)) owned)
