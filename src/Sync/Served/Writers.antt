-- ===== src/Sync/Served/Writers.antt =====
-- The endpoints that write one thing at a time: what they do to the library.
use podcast_backend.Prelude.{
  ℕ, ℤ, String, List, Option, none, some, some-inj, [], ◌≡◌, refl, sym, ◌∙◌, ap, subst, inl, inr,
  arith, str_eq, or_else, Bool-cases,
}
use podcast_backend.Errs.{ok, err}
use podcast_backend.Wire.Sync.{UpdateEpisodeRequest, UpdateEpisodeStarRequest}
use podcast_backend.Db.Rows.{User, UserEpisode}
use podcast_backend.Db.Tx.{Ran, Db, Session, Tx, or_no_rows, in_tx, ◌>>=◌}
use podcast_backend.Db.Tx.Laws.{>>=-eq-ok}
use podcast_backend.Db.Users.{
  update_user, find_user, get_user_for_update, set_user_sync_last_modified,
}
use podcast_backend.Db.Library.{get_user_episode, upsert_user_episode}
use podcast_backend.Db.Wrote.{Wrote-refl}
use podcast_backend.Sync.Env.{Env}
use podcast_backend.Sync.Token.{next_token, fresh_token}
use podcast_backend.Sync.Episode.{new_episode, set_podcast}
use podcast_backend.Sync.Episode.Writes.{upsert_user_episode-Writes, owned_read}
use podcast_backend.Sync.Update.{as_database_error}
use podcast_backend.Sync.Update.Parts.{get_user_step, set_token_step, fresh_token_step, with_token}
use podcast_backend.Sync.Realtime.{
  update_params, star_params, set_position, set_status, set_duration, store_episode, episode_body,
  update_episode, star_body, update_episode_star,
}
use podcast_backend.Sync.Served.{Served, Mild, Mild-refl, SameLibrary}

-- A request whose transaction failed leaves everything as it was.
pub in_tx-Served :
    {A : Type 0} (clock : ℕ → ℤ) (user : ℕ) (name : String) (body : Tx A) (d : Db)
    → ((s : Session) (a : A) (s' : Session) → body s ≡ ok (a, s') → Served clock user s.db s'.db)
    → Served clock user d (as_database_error name (in_tx body d)).1
unfolding in_tx
in_tx-Served {A} clock user name body d served = go (body start) (served start)
  where
    start : Session
    start = record { db = d; ticks = 0; unknown_feeds = [] }

    go :
        (r : Ran A)
        → ((a : A) (s' : Session) → r ≡ ok (a, s') → Served clock user d s'.db)
        → Served clock user d
            (as_database_error {A = A × List String} name
              (elim r [ ok (a, s) ↦ (ok (a, s.unknown_feeds), s.db) | err (e, s) ↦ (err e, d) ])).1
    go (ok (a, s)) h = h a s refl
    go (err e) h = inl (Mild-refl d)

-- Each assignment keeps the row's owner and its token.
abbrev SameRow : UserEpisode → UserEpisode → Type 0
SameRow a b = (a.user_id ≡ b.user_id) × (a.modified_at ≡ b.modified_at)

SameRow-trans : (a b c : UserEpisode) → SameRow a b → SameRow b c → SameRow a c
SameRow-trans a b c p q = (p.0 ∙ q.0, p.1 ∙ q.1)

set_position-same :
    (token : ℤ) (p : Option ℤ) (row : UserEpisode) → SameRow (set_position token p row) row
unfolding set_position
set_position-same token none row = (refl, refl)
set_position-same token (some p) row = (refl, refl)

set_status-same : (token status : ℤ) (row : UserEpisode) → SameRow (set_status token status row) row
unfolding set_status
set_status-same token status row = (ground arith, ground arith)

set_duration-same :
    (token duration : ℤ) (row : UserEpisode) → SameRow (set_duration token duration row) row
unfolding set_duration
set_duration-same token duration row = (ground arith, ground arith)

set_podcast-same : (uuid : String) (row : UserEpisode) → SameRow (set_podcast uuid row) row
set_podcast-same uuid row = (ground arith, ground arith)

-- The row of an update is the user's, under the token.
update_params-row :
    (token : ℤ) (req : UpdateEpisodeRequest) (old row : UserEpisode)
    → update_params token req old ≡ some row
    → (row.user_id ≡ old.user_id) × (row.modified_at ≡ token)
unfolding update_params
update_params-row token req old row h =
    let fresh = record old { modified_at = token } in
    let params = set_podcast req.podcast fresh in
    let placed = set_position token req.position params in
    let marked = set_status token req.status placed in
    let done = set_duration token req.duration marked in
    elim (Bool-cases (str_eq params.podcast_uuid "")) [
      | inl e ↦ absurd (none-some (rw e at h))
      | inr e ↦
          let same : done ≡ row = some-inj (rw e at h) in
          subst (λ r. SameRow r fresh) same
            (SameRow-trans done marked fresh (set_duration-same token req.duration marked) (
              SameRow-trans marked placed fresh (set_status-same token req.status placed) (
                SameRow-trans placed params fresh (set_position-same token req.position params)
                  (set_podcast-same req.podcast fresh))))
    ]
  where
    none-some : none ≡ some row → ⊥
    none-some e = cc

module _ (env : Env) (clock : ℕ → ℤ) (user : ℕ) where
  store_episode-Served :
      (old : User) (tick : ℕ) (row : Option UserEpisode) (s : Session) (a : Unit {0}) (s' : Session)
      → find_user user s.db.users ≡ some old
      → ((r : UserEpisode)
          → row ≡ some r
          → (r.user_id ≡ user) × (r.modified_at ≡ next_token (clock tick) old.sync_last_modified))
      → store_episode env clock user (next_token (clock tick) old.sync_last_modified) row s
        ≡ ok (a, s')
      → Served clock user s.db s'.db
  unfolding store_episode
  store_episode-Served old tick none s a s' f p h =
      let e : s'.db ≡ s.db = ground arith in inl (subst (Mild s.db) (sym e) (Mild-refl s.db))
  store_episode-Served old tick (some r) s a s' f p h =
      let token = next_token (clock tick) old.sync_last_modified in
      let (b, s1, e, k) =
        >>=-eq-ok (upsert_user_episode env.is_uuid r) (λ _. set_user_sync_last_modified user token)
          s h in
      let (eu, em) = p r refl in
      let wrote = upsert_user_episode-Writes env user token r eu em s b s1 e in
      let after = set_token_step user token s1 a s' k in
      inr (record {
        old = old;
        tick = tick;
        batch = s1.db;
        found = f;
        wrote = wrote;
        library = subst (SameLibrary s1.db) (sym after) (record {
          podcasts = refl;
          episodes = refl;
          folders = refl;
          playlists = refl;
          bookmarks = refl;
        });
        users =
            ap (λ z. z.users) after ∙ ap (λ us. update_user user (with_token token) us) wrote.users;
      })

  -- The body of an endpoint on one episode: the user, a token, the stored row, and the rest.
  abbrev pub stores_row :
      (ℤ → UserEpisode → Option UserEpisode) → String → ℤ → Option UserEpisode → Tx Unit
  stores_row params uuid token found =
      store_episode env clock user token (params token (or_else found (new_episode user uuid)))

  abbrev pub reads_row : (ℤ → UserEpisode → Option UserEpisode) → String → ℤ → Tx Unit
  reads_row params uuid token =
      or_no_rows (get_user_episode env.is_uuid user uuid) >>= stores_row params uuid token

  abbrev pub mints_token : (ℤ → UserEpisode → Option UserEpisode) → String → User → Tx Unit
  mints_token params uuid u = fresh_token clock u.sync_last_modified >>= reads_row params uuid

  abbrev pub writes_back : (ℤ → UserEpisode → Option UserEpisode) → String → Tx Unit
  writes_back params uuid = get_user_for_update user >>= mints_token params uuid

  pub writes_back-Served :
      (params : ℤ → UserEpisode → Option UserEpisode) (uuid : String)
      → ((token : ℤ) (old row : UserEpisode)
          → params token old ≡ some row
          → (row.user_id ≡ old.user_id) × (row.modified_at ≡ token))
      → (s : Session) (a : Unit {0}) (s' : Session) → writes_back params uuid s ≡ ok (a, s')
      → Served clock user s.db s'.db
  writes_back-Served params uuid p s a s' h =
      let (u, s1, e1, k1) = >>=-eq-ok (get_user_for_update user) (mints_token params uuid) s h in
      let (same1, f) = get_user_step user s u s1 e1 in
      let (token, s2, e2, k2) =
        >>=-eq-ok (fresh_token clock u.sync_last_modified) (reads_row params uuid) s1 k1 in
      let (same2, et) = fresh_token_step clock u.sync_last_modified s1 token s2 e2 in
      let (found, s3, e3, k3) =
        >>=-eq-ok (or_no_rows (get_user_episode env.is_uuid user uuid))
          (stores_row params uuid token) s2 k2 in
      let (same3, owned) = owned_read env user token uuid s2 found s3 e3 in
      let same : s3.db ≡ s.db = same3 ∙ same2 ∙ ap (λ z. z.db) same1 in
      subst (λ d. Served clock user d s'.db) same
        (store_episode-Served u s1.ticks
          (params (next_token (clock s1.ticks) u.sync_last_modified)
            (or_else found (new_episode user uuid)))
          s3 a s' (subst (λ d. find_user user d.users ≡ some u) (sym same) f)
          (λ r e. let (eu, em) = p _ _ r e in (eu ∙ owned, em))
          (subst (λ t. stores_row params uuid t found s3 ≡ ok (a, s')) et k3))

  pub update_episode-Served :
      (req : UpdateEpisodeRequest) (d : Db)
      → Served clock user d (update_episode env clock user req d).1
  unfolding update_episode episode_body
  update_episode-Served req d = elim (Bool-cases (str_eq req.uuid "")) [
    | inl e ↦ rw e (inl (Mild-refl d))
    | inr e ↦ rw e (
        in_tx-Served clock user "syncsvc/Engine.UpdateEpisode" (episode_body env clock user req) d (
          writes_back-Served (λ token. update_params token req) req.uuid
            (λ token. update_params-row token req)))
  ]

  star_params-row :
      (token : ℤ) (req : UpdateEpisodeStarRequest) (old row : UserEpisode)
      → some (star_params token req old) ≡ some row
      → (row.user_id ≡ old.user_id) × (row.modified_at ≡ token)
  unfolding star_params
  star_params-row token req old row h =
      subst (λ r. (r.user_id ≡ old.user_id) × (r.modified_at ≡ token)) (some-inj h)
        (set_podcast-same req.podcast (record old { modified_at = token }))

  pub update_episode_star-Served :
      (req : UpdateEpisodeStarRequest) (d : Db)
      → Served clock user d (update_episode_star env clock user req d).1
  unfolding update_episode_star star_body
  update_episode_star-Served req d = elim (Bool-cases (str_eq req.uuid "")) [
    | inl e ↦ rw e (inl (Mild-refl d))
    | inr e ↦ rw e (
        in_tx-Served clock user "syncsvc/Engine.UpdateEpisodeStar" (star_body env clock user req) d
          (writes_back-Served (λ token old. some (star_params token req old)) req.uuid
            (λ token. star_params-row token req)))
  ]

  pub set_token-Served :
      (old : User) (tick : ℕ) (batch d d' : Db)
      → find_user user d.users ≡ some old
      → SameLibrary d batch
      → batch.users ≡ d.users
      → d' ≡ record batch {
        users =
            update_user user
              (with_token (next_token (clock tick) old.sync_last_modified))
              batch.users;
      }
      → Served clock user d d'
  set_token-Served old tick batch d d' f lib us after =
      let token = next_token (clock tick) old.sync_last_modified in
      inr (record {
        old = old;
        tick = tick;
        batch = d;
        found = f;
        wrote = Wrote-refl user token d;
        library = subst (SameLibrary d) (sym after) (record {
          podcasts = lib.podcasts;
          episodes = lib.episodes;
          folders = lib.folders;
          playlists = lib.playlists;
          bookmarks = lib.bookmarks;
        });
        users = ap (λ z. z.users) after ∙ ap (λ l. update_user user (with_token token) l) us;
      })
