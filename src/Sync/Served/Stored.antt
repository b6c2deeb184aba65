-- ===== src/Sync/Served/Stored.antt =====
-- What the settings endpoint does to the library: it moves the token at most.
use podcast_backend.Prelude.{
  ℕ, ℤ, Bool, true, false, Option, some, ◌≡◌, sym, ◌∙◌, ap, subst, inl, arith,
}
use podcast_backend.Errs.{Result, ok, err, is_no_rows}
use podcast_backend.Wire.Settings.{Settings}
use podcast_backend.Db.Rows.{User, UserSettings, settings_key}
use podcast_backend.Db.Table.{put}
use podcast_backend.Db.Tx.{Db, Session, Tx, pure, lift, or_no_rows, ◌>>=◌, ◌>>◌}
use podcast_backend.Db.Tx.Laws.{>>=-eq-ok}
use podcast_backend.Db.Users.{find_user, get_user_for_update, set_user_sync_last_modified}
use podcast_backend.Db.Queue.{get_user_settings, upsert_user_settings}
use podcast_backend.Sync.Env.{Env}
use podcast_backend.Sync.Token.{next_token, fresh_token}
use podcast_backend.Sync.Settings.{
  decode_stored_settings, encode_stored_settings, build_named_settings_response,
}
use podcast_backend.Sync.Update.Parts.{get_user_step, set_token_step, fresh_token_step}
use podcast_backend.Sync.Realtime.{
  NamedSettingsRequest, store_settings, merge_settings, settings_body, update_settings, stored_raw,
}
use podcast_backend.Sync.Served.{Served, Mild, Mild-refl}
use podcast_backend.Sync.Served.Writers.{in_tx-Served, set_token-Served}

get_user_settings_same :
    (user : ℕ) (s : Session) (row : Option UserSettings) (s' : Session)
    → or_no_rows (get_user_settings user) s ≡ ok (row, s')
    → s' ≡ s
unfolding get_user_settings is_no_rows
get_user_settings_same user s row s' h = ground arith

lift_same :
    {A : Type 0} (r : Result A) (s : Session) (a : A) (s' : Session)
    → lift r s ≡ ok (a, s')
    → s' ≡ s
lift_same (ok b) s a s' h = ground arith
lift_same (err e) s a s' h = absurd (ground arith)

pure_same :
    {A : Type 0} (b : A) (s : Session) (a : A) (s' : Session) → pure b s ≡ ok (a, s') → s' ≡ s
pure_same b s a s' h = ground arith

upsert_user_settings_step :
    (row : UserSettings) (s : Session) (a : Unit {0}) (s' : Session)
    → upsert_user_settings row s ≡ ok (a, s')
    → s'.db ≡ record s.db { settings = put row s.db.settings }
unfolding upsert_user_settings
upsert_user_settings_step row s a s' h = ground arith

module _ (env : Env) (clock : ℕ → ℤ) (user : ℕ) where
  store_settings-Served :
      (old : User) (tick : ℕ) (m : Settings) (b : Bool) (s : Session) (a : Unit {0}) (s' : Session)
      → find_user user s.db.users ≡ some old
      → store_settings env clock user (next_token (clock tick) old.sync_last_modified) m b s
        ≡ ok (a, s')
      → Served clock user s.db s'.db
  unfolding store_settings
  store_settings-Served old tick m false s a s' f h =
      inl (subst (λ z. Mild s.db z.db) (sym (pure_same tt s a s' h)) (Mild-refl s.db))
  store_settings-Served old tick m true s a s' f h =
      let token = next_token (clock tick) old.sync_last_modified in
      let (raw, s1, e1, k1) =
        >>=-eq-ok (lift (encode_stored_settings env m))
          (λ raw.
            upsert_user_settings (record { user_id = user; settings = raw; modified_at = token })
            >> set_user_sync_last_modified user token)
          s h in
      let (b, s2, e2, k2) =
        >>=-eq-ok
          (upsert_user_settings (record { user_id = user; settings = raw; modified_at = token }))
          (λ _. set_user_sync_last_modified user token) s1 k1 in
      let same1 : s1.db ≡ s.db =
        ap (λ z. z.db) (lift_same (encode_stored_settings env m) s raw s1 e1) in
      let row : UserSettings = record { user_id = user; settings = raw; modified_at = token } in
      let before : s2.db ≡ record s1.db { settings = put row s1.db.settings } =
        upsert_user_settings_step row s1 b s2 e2 in
      set_token-Served env clock user old tick s2.db s.db s'.db f
        (record {
          podcasts = ap {A = Db} (λ d. d.podcasts) before ∙ ap {A = Db} (λ d. d.podcasts) same1;
          episodes = ap {A = Db} (λ d. d.episodes) before ∙ ap {A = Db} (λ d. d.episodes) same1;
          folders = ap {A = Db} (λ d. d.folders) before ∙ ap {A = Db} (λ d. d.folders) same1;
          playlists = ap {A = Db} (λ d. d.playlists) before ∙ ap {A = Db} (λ d. d.playlists) same1;
          bookmarks = ap {A = Db} (λ d. d.bookmarks) before ∙ ap {A = Db} (λ d. d.bookmarks) same1;
        })
        (ap {A = Db} (λ d. d.users) before ∙ ap {A = Db} (λ d. d.users) same1)
        (set_token_step user token s2 a s' k2)

  module _ (req : NamedSettingsRequest) where
    abbrev answers : Settings → ℤ → Unit {0} → Tx Settings
    answers stored token _ =
        pure (build_named_settings_response env (merge_settings env clock stored req token).0)

    abbrev stores : Settings → ℤ → Tx Settings
    stores stored token =
        store_settings env clock user token (merge_settings env clock stored req token).0
          (merge_settings env clock stored req token).1
        >>= answers stored token

    abbrev mints : User → Settings → Tx Settings
    mints u stored = fresh_token clock u.sync_last_modified >>= stores stored

    abbrev decodes : User → Option UserSettings → Tx Settings
    decodes u row = lift (decode_stored_settings env (stored_raw row)) >>= mints u

    abbrev reads : User → Tx Settings
    reads u = or_no_rows (get_user_settings user) >>= decodes u

    settings_body-Served :
        (s : Session) (a : Settings) (s' : Session)
        → settings_body env clock user req s ≡ ok (a, s')
        → Served clock user s.db s'.db
    unfolding settings_body
    settings_body-Served s a s' h =
        let (u, s1, e1, k1) = >>=-eq-ok (get_user_for_update user) reads s h in
        let (same1, f) = get_user_step user s u s1 e1 in
        let (row, s2, e2, k2) = >>=-eq-ok (or_no_rows (get_user_settings user)) (decodes u) s1 k1 in
        let same2 = get_user_settings_same user s1 row s2 e2 in
        let (stored, s3, e3, k3) =
          >>=-eq-ok (lift (decode_stored_settings env (stored_raw row))) (mints u) s2 k2 in
        let same3 = lift_same (decode_stored_settings env (stored_raw row)) s2 stored s3 e3 in
        let (token, s4, e4, k4) =
          >>=-eq-ok (fresh_token clock u.sync_last_modified) (stores stored) s3 k3 in
        let (same4, et) = fresh_token_step clock u.sync_last_modified s3 token s4 e4 in
        let same : s4.db ≡ s.db = same4 ∙ ap (λ z. z.db) (same3 ∙ same2 ∙ same1) in
        let (b, s5, e5, k5) =
          >>=-eq-ok
            (store_settings env clock user token (merge_settings env clock stored req token).0
              (merge_settings env clock stored req token).1)
            (answers stored token) s4 k4 in
        subst (λ z. Served clock user s.db z.db) (sym (pure_same _ s5 a s' k5))
          (subst (λ d. Served clock user d s5.db) same
            (store_settings-Served u s3.ticks (merge_settings env clock stored req token).0
              (merge_settings env clock stored req token).1 s4 b s5
              (subst (λ d. find_user user d.users ≡ some u) (sym same) f)
              (subst
                (λ t.
                  store_settings env clock user t (merge_settings env clock stored req token).0
                    (merge_settings env clock stored req token).1 s4
                  ≡ ok (b, s5))
                et e5)))

    pub update_settings-Served :
        (d : Db) → Served clock user d (update_settings env clock user req d).1
    unfolding update_settings
    update_settings-Served d =
        in_tx-Served clock user "syncsvc/Engine.UpdateSettings" (settings_body env clock user req) d
          settings_body-Served
