-- ===== src/Sync/Podcast/Writes.antt =====
-- A subscription record writes at most one row of the user, under the token.
use podcast_backend.Prelude.{
  ℕ, ℤ, String, Bool, true, false, ◌&&◌, not, Option, none, some, ◌≡◌, refl, sym, ap, ◌∙◌, subst,
  arith, str_eq, or_else, inl, inr, Bool-cases,
}
use podcast_backend.Errs.{ok, is_no_rows}
use podcast_backend.Wire.Settings.{Settings}
use podcast_backend.Wire.Sync.{SyncUserPodcast}
use podcast_backend.Db.Table.{find}
use podcast_backend.Db.Table.Laws.{find-at, at-eq}
use podcast_backend.Db.Rows.{UserPodcast, Podcast, podcast_key}
use podcast_backend.Db.Tx.{Session, or_no_rows, pure}
use podcast_backend.Db.Tx.Laws.{>>=-eq-ok}
use podcast_backend.Db.Users.{get_podcast_by_uuid}
use podcast_backend.Db.Library.{get_user_podcast, upsert_user_podcast, merge_user_podcast}
use podcast_backend.Db.Library.Steps.{get_user_podcast_step, upsert_user_podcast_step}
use podcast_backend.Db.Wrote.{Wrote, Writes}
use podcast_backend.Db.Wrote.Rules.{pure-Writes, if-Writes, reads-Writes}
use podcast_backend.Db.Wrote.Upserts.{Wrote-podcasts}
use podcast_backend.Sync.Env.{Env}
use podcast_backend.Sync.Podcast.{
  apply_podcast_record, new_podcast, podcast_flags, podcast_fields, feed_step, settings_step,
  ingest, report_unknown, on_unknown_podcast,
}

module _ (env : Env) where
  -- The lookups and the callback leave the tables alone.
  report_unknown-db :
      (url : String) (found : Option Podcast) (s : Session) (a : Unit {0}) (s' : Session)
      → report_unknown env url found s ≡ ok (a, s')
      → s'.db ≡ s.db
  unfolding report_unknown on_unknown_podcast is_no_rows
  report_unknown-db url (some p) s a s' h = ground arith
  report_unknown-db url none s a s' h = ground arith

  by_uuid-db :
      (uuid : String) (s : Session) (found : Option Podcast) (s' : Session)
      → or_no_rows (get_podcast_by_uuid env.is_uuid uuid) s ≡ ok (found, s')
      → s'.db ≡ s.db
  unfolding get_podcast_by_uuid is_no_rows
  by_uuid-db uuid s found s' h = ground arith

  ingest-db :
      (uuid url : String) (live : Bool) (p : UserPodcast) (s : Session) (a : Unit {0})
      (s' : Session)
      → (p.subscribed && not p.is_deleted) ≡ live
      → ingest env uuid url p s ≡ ok (a, s')
      → s'.db ≡ s.db
  unfolding ingest
  ingest-db uuid url false p s a s' e h = let q : pure tt s ≡ ok (a, s') = rw e at h in ground arith
  ingest-db uuid url true p s a s' e h =
      let (found, s1, e1, e2) =
        >>=-eq-ok (or_no_rows (get_podcast_by_uuid env.is_uuid uuid))
          (λ found. report_unknown env url found) s (rw e at h) in
      report_unknown-db url found s1 a s' e2 ∙ by_uuid-db uuid s found s1 e1

module _ (env : Env) (user : ℕ) (token : ℤ) where
  abbrev Ready : UserPodcast → Type 0
  Ready p = (p.user_id ≡ user) × (p.modified_at ≡ token)

  podcast_flags-Ready :
      (rec : SyncUserPodcast) (p : UserPodcast)
      → p.user_id ≡ user
      → Ready (podcast_flags token rec p)
  unfolding podcast_flags
  podcast_flags-Ready rec p e = (ground arith, ground arith)

  feed_step-Ready :
      (uuid : String) (url : Option String) (p : UserPodcast)
      → Ready p
      → (s : Session) (q : UserPodcast) (s' : Session) → feed_step env uuid url p s ≡ ok (q, s')
      → (s'.db ≡ s.db) × Ready q
  unfolding feed_step
  feed_step-Ready uuid none p r s q s' h = (ground arith, (ground arith, ground arith))
  feed_step-Ready uuid (some url) p r s q s' h = elim (Bool-cases (str_eq url "")) [
    | inl e ↦
        let k : pure p s ≡ ok (q, s') = rw e at h in (ground arith, (ground arith, ground arith))
    | inr e ↦
        let (a, s1, e1, e2) =
          >>=-eq-ok (ingest env uuid (env.canonical_feed_url url) p)
            (λ _. pure (record p { synced_feed_url = env.canonical_feed_url url })) s (rw e at h) in
        let same = ingest-db env uuid (env.canonical_feed_url url) _ p s a s1 refl e1 in
        (ground arith, (ground arith, ground arith))
  ]

  settings_step-Ready :
      (incoming : Option Settings) (p : UserPodcast)
      → Ready p
      → (s : Session) (q : UserPodcast) (s' : Session) → settings_step env incoming p s ≡ ok (q, s')
      → (s'.db ≡ s.db) × Ready q
  unfolding settings_step
  settings_step-Ready none p r s q s' h = (ground arith, (ground arith, ground arith))
  settings_step-Ready (some incoming) p r s q s' h = (ground arith, (ground arith, ground arith))

  podcast_fields-Ready :
      (rec : SyncUserPodcast) (p : UserPodcast) → Ready p → Ready (podcast_fields rec p)
  unfolding podcast_fields
  podcast_fields-Ready rec p r = r

  merge_user_podcast-Ready :
      (old : Option UserPodcast) (p : UserPodcast)
      → Ready p
      → Ready (merge_user_podcast env.is_uuid old p)
  unfolding merge_user_podcast
  merge_user_podcast-Ready none p r = r
  merge_user_podcast-Ready (some old) p r = r

  upsert_user_podcast-Writes :
      (row : UserPodcast) → Ready row → Writes user token (upsert_user_podcast env.is_uuid row)
  upsert_user_podcast-Writes row r s a s' h =
      let old = find row.user_id row.podcast_uuid s.db.podcasts in
      let (eu, em) = merge_user_podcast-Ready old row r in
      subst (λ z. Wrote user token s.db z.db) (sym (upsert_user_podcast_step env.is_uuid s row h))
        (Wrote-podcasts user token s.db (merge_user_podcast env.is_uuid old row) eu em)

  stored_podcast_user :
      (s : Session) (uuid : String) (found : Option UserPodcast)
      → found ≡ find user uuid s.db.podcasts
      → (or_else found (new_podcast user uuid)).user_id ≡ user
  stored_podcast_user s uuid none e = refl
  stored_podcast_user s uuid (some r) e =
      (at-eq user uuid r (find-at user uuid r s.db.podcasts (sym e))).0

  owned_read :
      (uuid : String) (s : Session) (found : Option UserPodcast) (s' : Session)
      → or_no_rows (get_user_podcast env.is_uuid user uuid) s ≡ ok (found, s')
      → (s'.db ≡ s.db) × ((or_else found (new_podcast user uuid)).user_id ≡ user)
  owned_read uuid s found s' h =
      let (es, ef) = get_user_podcast_step env.is_uuid s user uuid h in
      (ap (λ z. z.db) es, stored_podcast_user s uuid found ef)

  pub apply_podcast_record-Writes :
      (rec : SyncUserPodcast) → Writes user token (apply_podcast_record env user token rec)
  unfolding apply_podcast_record
  apply_podcast_record-Writes rec =
      if-Writes user token (str_eq rec.uuid "") _ _ (λ _. pure-Writes user token tt)
        λ _.
          reads-Writes user token
            (λ found. (or_else found (new_podcast user rec.uuid)).user_id ≡ user)
            (or_no_rows (get_user_podcast env.is_uuid user rec.uuid)) _ (owned_read rec.uuid)
            λ found owned.
              let start = podcast_flags token rec (or_else found (new_podcast user rec.uuid)) in
              reads-Writes user token Ready (feed_step env rec.uuid rec.feed_url start) _
                (feed_step-Ready rec.uuid rec.feed_url start
                  (podcast_flags-Ready rec (or_else found (new_podcast user rec.uuid)) owned))
                λ fed r.
                  reads-Writes user token Ready
                    (settings_step env rec.settings (podcast_fields rec fed)) _
                    (settings_step-Ready rec.settings (podcast_fields rec fed)
                      (podcast_fields-Ready rec fed r))
                    upsert_user_podcast-Writes
