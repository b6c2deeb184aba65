-- ===== src/Sync/Served/Requests.antt =====
-- Any sequence of requests, by any users, through the whole sync engine.
use podcast_backend.Prelude.{
  ℕ, zero, suc, ◌≤◌, String, ℤ, pos, ◌+ℤ◌, ◌≤ℤ◌, List, [], ◌∷◌, length, All, ◌≡◌, refl, sym, ◌∙◌,
  ap, subst, inl, inr, arith,
}
use podcast_backend.Wire.Sync.{SyncUpdateRequest, UpdateEpisodeRequest, UpdateEpisodeStarRequest}
use podcast_backend.Wire.Queue.{UpNextSyncRequest, HistoryChange}
use podcast_backend.Errs.{Result, ok, err}
use podcast_backend.Wire.Sync.{SyncUpdateResponse}
use podcast_backend.Db.Tx.{Db}
use podcast_backend.Db.Users.{update_user}
use podcast_backend.Db.Wrote.{Wrote}
use podcast_backend.Sync.Env.{Env}
use podcast_backend.Sync.Token.{next_token, max_int64}
use podcast_backend.Sync.Invariant.{IsSynced}
use podcast_backend.Sync.Update.{apply_update}
use podcast_backend.Sync.Update.Parts.{with_token}
use podcast_backend.Sync.Update.Theorems.{apply_update-Parts, apply_update_atomic}
use podcast_backend.Sync.Realtime.{
  NamedSettingsRequest, update_settings, update_episode, update_episode_star,
}
use podcast_backend.Sync.UpNext.{sync_up_next}
use podcast_backend.Sync.History.{sync_history}
use podcast_backend.Sync.Served.{Served, Mild, Mild-refl, SameLibrary}
use podcast_backend.Sync.Served.Ready.{Ready, room_pred, Served-Ready}
use podcast_backend.Sync.Served.Writers.{update_episode-Served, update_episode_star-Served}
use podcast_backend.Sync.Served.Stored.{update_settings-Served}
use podcast_backend.Sync.Served.Queues.{sync_up_next-Served, sync_history-Served}

pub data Request : Type 0 where
  sync : SyncUpdateRequest → Request
  settings : NamedSettingsRequest → Request
  episode : UpdateEpisodeRequest → Request
  star : UpdateEpisodeStarRequest → Request
  up_next : UpNextSyncRequest → Request
  history : List HistoryChange → Request

-- One call of the engine: whose it is, what the clocks say while it runs, and what it asks.
pub record Call : Type 0 where
  pub user : ℕ
  pub clock : ℕ → ℤ
  pub db_now : ℤ
  pub request : Request

module _ (env : Env) where
  -- The database after a request of the user.
  unfoldable pub serve_request : ℕ → (ℕ → ℤ) → ℤ → Request → Db → Db
  serve_request user clock db_now (sync req) db = (apply_update env clock db_now user req db).1
  serve_request user clock db_now (settings req) db = (update_settings env clock user req db).1
  serve_request user clock db_now (episode req) db = (update_episode env clock user req db).1
  serve_request user clock db_now (star req) db = (update_episode_star env clock user req db).1
  serve_request user clock db_now (up_next req) db = (sync_up_next env clock user req db).1
  serve_request user clock db_now (history cs) db = (sync_history env clock user cs db).1

  unfoldable pub serve_all : List Call → Db → Db
  serve_all [] db = db
  serve_all (c ∷ cs) db = serve_all cs (serve_request c.user c.clock c.db_now c.request db)

module _ (env : Env) where
  apply_update-Served_at :
      (clock : ℕ → ℤ) (db_now : ℤ) (user : ℕ) (req : SyncUpdateRequest) (d : Db)
      (res : Result (SyncUpdateResponse × List String)) (d' : Db)
      → apply_update env clock db_now user req d ≡ (res, d')
      → Served clock user d d'
  apply_update-Served_at clock db_now user req d (err e) d' h = inl (
      subst (Mild d) (sym (apply_update_atomic env clock db_now user req d e d' h).0) (Mild-refl d))
  apply_update-Served_at clock db_now user req d (ok (resp, feeds)) d' h =
      let p = apply_update-Parts env clock db_now user req d resp feeds d' h in
      let token = next_token (clock p.tick) p.user.sync_last_modified in
      inr (record {
        old = p.user;
        tick = p.tick;
        batch = p.batch;
        found = p.found;
        wrote = subst (λ t. Wrote user t d p.batch) p.token p.wrote;
        library = subst (SameLibrary p.batch) (sym p.after) (record {
          podcasts = refl;
          episodes = refl;
          folders = refl;
          playlists = refl;
          bookmarks = refl;
        });
        users =
            ap (λ z. z.users) p.after
            ∙ ap (update_user user (with_token resp.last_modified)) p.wrote.users
            ∙ ap (λ t. update_user user (with_token t) d.users) p.token;
      })

  serve_request-Served :
      (user : ℕ) (clock : ℕ → ℤ) (db_now : ℤ) (req : Request) (d : Db)
      → Served clock user d (serve_request env user clock db_now req d)
  unfolding serve_request
  serve_request-Served user clock db_now (sync req) d =
      apply_update-Served_at clock db_now user req d _ _ refl
  serve_request-Served user clock db_now (settings req) d =
      update_settings-Served env clock user req d
  serve_request-Served user clock db_now (episode req) d =
      update_episode-Served env clock user req d
  serve_request-Served user clock db_now (star req) d =
      update_episode_star-Served env clock user req d
  serve_request-Served user clock db_now (up_next req) d = sync_up_next-Served env clock user req d
  serve_request-Served user clock db_now (history cs) d = sync_history-Served env clock user cs d

  -- Every clock reading of the calls leaves room for n tokens.
  abbrev pub ClocksWithin : ℕ → List Call → Type 0
  ClocksWithin n = All (λ (c : Call). (i : ℕ) → c.clock i +ℤ pos n ≤ℤ max_int64)

  ClocksWithin-pred : (n : ℕ) (cs : List Call) → ClocksWithin (suc n) cs → ClocksWithin n cs
  ClocksWithin-pred n [] h = tt
  ClocksWithin-pred n (c ∷ cs) h =
      ((λ i. room_pred n (c.clock i) (h.0 i)), ClocksWithin-pred n cs h.1)

  -- Any sequence of at most n requests, of any kinds and by any users, keeps this for every user:
  -- no row of the user's library carries a token past the user's own, and the tables keep their
  -- keys. It holds if it held at the start, and no token and no clock reading is within n of the
  -- largest int64.
  pub serve_all-IsSynced :
      (n : ℕ) (calls : List Call) (d : Db)
      → length calls ≤ n
      → ClocksWithin n calls
      → Ready n d
      → (user : ℕ) → IsSynced user (serve_all env calls d)
  unfolding serve_all
  serve_all-IsSynced n [] d l c r user = r.synced user
  serve_all-IsSynced zero (c ∷ cs) d l k r user = absurd (omega arith)
  serve_all-IsSynced (suc n) (c ∷ cs) d l k r user =
      serve_all-IsSynced n cs (serve_request env c.user c.clock c.db_now c.request d) (omega arith)
        (ClocksWithin-pred n cs k.1)
        (Served-Ready n c.clock c.user d _ k.0 r
          (serve_request-Served c.user c.clock c.db_now c.request d))
        user
