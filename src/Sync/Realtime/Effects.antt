-- ===== src/Sync/Realtime/Effects.antt =====
-- The endpoints on one episode from end to end.
use podcast_backend.Prelude.{
  ℕ, ℤ, String, true, false, Option, none, some, List, [], ◌∷◌, str_eq, or_else, ◌≡◌, refl, ◌∙◌, ap,
  arith,
}
use podcast_backend.Errs.{native, invalid_uuid, ok, err, E, Arg, database, is_no_rows}
use podcast_backend.Wire.Sync.{UpdateEpisodeRequest, UpdateEpisodeStarRequest}
use podcast_backend.Db.Rows.{User, UserEpisode, episode_key}
use podcast_backend.Db.Table.{find, put}
use podcast_backend.Db.Tx.{Ran, Db, Session, in_tx, or_no_rows}
use podcast_backend.Db.Tx.Laws.{>>=-ok}
use podcast_backend.Db.Users.{
  find_user, get_user_for_update, set_user_sync_last_modified, update_user,
}
use podcast_backend.Db.Library.{get_user_episode, upsert_user_episode}
use podcast_backend.Sync.Env.{Env}
use podcast_backend.Sync.Token.{next_token}
use podcast_backend.Sync.Episode.{new_episode, podcast_after}
use podcast_backend.Sync.Update.{as_database_error}
use podcast_backend.Sync.Update.Parts.{with_token}
use podcast_backend.Sync.Realtime.{
  update_params, star_params, store_episode, episode_body, star_body, update_episode,
  update_episode_star,
}
use podcast_backend.Sync.Realtime.Updated.{
  Updated, updated, updated-Updated, update_params-updated, row_uuid,
}
use podcast_backend.Sync.Served.Writers.{writes_back, mints_token, stores_row}

module _ (env : Env) (clock : ℕ → ℤ) (user : ℕ) (uuid : String) (d : Db) (u : User)
    (found : find_user user d.users ≡ some u) (valid : env.is_uuid uuid ≡ true) where
  abbrev start : ℕ → Session
  start t = record { db = d; ticks = t; unknown_feeds = [] }

  abbrev pub token : ℤ
  token = next_token (clock 0) u.sync_last_modified

  -- The stored row of the episode, or the blank one.
  abbrev pub row : UserEpisode
  row = or_else (find user uuid d.episodes) (new_episode user uuid)

  user_ok : get_user_for_update user (start 0) ≡ ok (u, start 0)
  unfolding get_user_for_update
  user_ok = rw found refl

  read_ok :
      (t : ℕ)
      → or_no_rows (get_user_episode env.is_uuid user uuid) (start t)
        ≡ ok (find user uuid d.episodes, start t)
  unfolding get_user_episode is_no_rows
  read_ok t = ground arith

  -- Up to the write, both endpoints do the same.
  writes_back-eq :
      (params : ℤ → UserEpisode → Option UserEpisode)
      → writes_back env clock user params uuid (start 0)
        ≡ store_episode env clock user token (params token row) (start 1)
  writes_back-eq params =
      >>=-ok (get_user_for_update user) (mints_token env clock user params uuid) (start 0) user_ok
      ∙ >>=-ok (or_no_rows (get_user_episode env.is_uuid user uuid))
          (stores_row env clock user params uuid token) (start 1) (read_ok 1)

  stored_ok :
      (r : UserEpisode)
      → env.is_uuid r.episode_uuid ≡ true
      → env.is_uuid r.podcast_uuid ≡ true
      → store_episode env clock user token (some r) (start 1)
        ≡ ok (
          tt,
          record {
            db = record d {
              episodes = put r d.episodes;
              users = update_user user (with_token token) d.users;
            };
            ticks = 1;
            unknown_feeds = [];
          },
        )
  unfolding store_episode upsert_user_episode set_user_sync_last_modified
  stored_ok r v w = ground arith

  wrapped :
      (name : String) (r : Ran (Unit {0})) (t : Unit {0}) (s' : Session)
      → r ≡ ok (t, s')
      → as_database_error {A = Unit {0} × List String} {B = Db} name
          (elim r [ ok (a, s) ↦ (ok (a, s.unknown_feeds), s.db) | err (e, s) ↦ (err e, d) ])
        ≡ (ok (t, s'.unknown_feeds), s'.db)
  wrapped name r t s' h =
      ap
        (λ z.
          as_database_error {A = Unit {0} × List String} {B = Db} name
            (elim z [ ok (a, s) ↦ (ok (a, s.unknown_feeds), s.db) | err (e, s) ↦ (err e, d) ]))
        h

module _ (env : Env) (clock : ℕ → ℤ) (user : ℕ) (req : UpdateEpisodeRequest) (d : Db)
    (u : User) where
  -- The stored row, or the blank one.
  abbrev before : UserEpisode
  before = or_else (find user req.uuid d.episodes) (new_episode user req.uuid)

  -- An update of an episode whose podcast is known, from the request or the stored row, returns and
  -- writes one row. Against the stored row, or a blank one, it has the request's podcast where that is
  -- named; the position, the status and the duration, where they are given, each with the next token
  -- as its stamp; the next token as its modified time; and all else as before. The user's token
  -- becomes the next one, and nothing else of the database changes. The user must exist, and the
  -- uuids of the request and of that podcast be uuids.
  pub update_episode_writes :
      find_user user d.users ≡ some u
      → str_eq req.uuid "" ≡ false
      → env.is_uuid req.uuid ≡ true
      → str_eq (podcast_after req.podcast before.podcast_uuid) "" ≡ false
      → env.is_uuid (podcast_after req.podcast before.podcast_uuid) ≡ true
      → (r : UserEpisode) × Updated (next_token (clock 0) u.sync_last_modified) req before r
        × (update_episode env clock user req d ≡ (
          ok (tt, []),
          record d {
            episodes = put r d.episodes;
            users =
                update_user user (with_token (next_token (clock 0) u.sync_last_modified)) d.users;
          },
        ))
  unfolding update_episode episode_body in_tx
  update_episode_writes f ne valid known w =
      let token = next_token (clock 0) u.sync_last_modified in
      let r = updated token req before in
      let shape = updated-Updated token req before in
      let same : r.episode_uuid ≡ req.uuid =
        ap (λ x. x.episode_uuid) shape.kept ∙ row_uuid user req.uuid _ d.episodes refl in
      (
        r,
        shape,
        rw ne (
            wrapped env clock user req.uuid d u f valid "syncsvc/Engine.UpdateEpisode" _ tt _ (
              writes_back-eq env clock user req.uuid d u f valid (λ t. update_params t req)
              ∙ ap
                  (λ o.
                    store_episode env clock user token o
                      (record { db = d; ticks = 1; unknown_feeds = [] }))
                  (update_params-updated token req before known)
              ∙ stored_ok env clock user req.uuid d u f valid r (ap env.is_uuid same ∙ valid)
                  (ap env.is_uuid shape.podcast ∙ w))),
      )

  skipped :
      (t : ℤ) (s : Session)
      → find user req.uuid d.episodes ≡ none
      → str_eq req.podcast "" ≡ true
      → store_episode env clock user t
          (update_params t req
            (or_else (find user req.uuid d.episodes) (new_episode user req.uuid)))
          s
        ≡ ok (tt, s)
  unfolding update_params store_episode
  skipped t s absent unknown = rw (absent, unknown) refl

  -- Of an episode whose podcast is not known, neither stored nor in the request, an update
  -- returns without an error and leaves the database as it was.
  pub update_episode_skips :
      find_user user d.users ≡ some u
      → str_eq req.uuid "" ≡ false
      → env.is_uuid req.uuid ≡ true
      → find user req.uuid d.episodes ≡ none
      → str_eq req.podcast "" ≡ true
      → update_episode env clock user req d ≡ (ok (tt, []), d)
  unfolding update_episode episode_body in_tx
  update_episode_skips f ne valid absent unknown = rw ne (
      wrapped env clock user req.uuid d u f valid "syncsvc/Engine.UpdateEpisode" _ tt _ (
        writes_back-eq env clock user req.uuid d u f valid (λ t. update_params t req)
        ∙ skipped (next_token (clock 0) u.sync_last_modified)
            (record { db = d; ticks = 1; unknown_feeds = [] }) absent unknown))

module _ (env : Env) (clock : ℕ → ℤ) (user : ℕ) (req : UpdateEpisodeStarRequest) (d : Db)
    (u : User) where
  refused :
      (t : ℤ) (s : Session)
      → env.is_uuid req.uuid ≡ true
      → env.is_uuid "" ≡ false
      → find user req.uuid d.episodes ≡ none
      → str_eq req.podcast "" ≡ true
      → store_episode env clock user t
          (some (
            star_params t req
              (or_else (find user req.uuid d.episodes) (new_episode user req.uuid))))
          s
        ≡ err (native (invalid_uuid ""), s)
  unfolding star_params store_episode upsert_user_episode
  refused t s valid bad absent unknown = rw (absent, unknown, valid, bad) refl

  -- A star for such an episode fails with a database error, since the empty text is no uuid, where
  -- the update of a position would have done nothing.
  pub update_episode_star_fails :
      find_user user d.users ≡ some u
      → str_eq req.uuid "" ≡ false
      → env.is_uuid req.uuid ≡ true
      → env.is_uuid "" ≡ false
      → find user req.uuid d.episodes ≡ none
      → str_eq req.podcast "" ≡ true
      → update_episode_star env clock user req d ≡ (
        err (
            E (
              Arg.op "syncsvc/Engine.UpdateEpisodeStar"
              ∷ Arg.kind database
              ∷ Arg.cause (native (invalid_uuid ""))
              ∷ [])),
        d,
      )
  unfolding update_episode_star star_body in_tx
  update_episode_star_fails f ne valid bad absent unknown = rw ne (
      ap
        (λ z.
          as_database_error {A = Unit {0} × List String} {B = Db} "syncsvc/Engine.UpdateEpisodeStar"
            (elim z [ ok (a, s) ↦ (ok (a, s.unknown_feeds), s.db) | err (e, s) ↦ (err e, d) ]))
        (writes_back-eq env clock user req.uuid d u f valid (λ t old. some (star_params t req old))
          ∙ refused (next_token (clock 0) u.sync_last_modified)
              (record { db = d; ticks = 1; unknown_feeds = [] }) valid bad absent unknown))
