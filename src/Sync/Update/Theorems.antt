-- ===== src/Sync/Update/Theorems.antt =====
-- ApplyUpdate as a client sees it.

use podcast_backend.Prelude.{
  ◌↔◌, some-inj, ℕ, ℤ, ◌<ℤ◌, String, true, some, List, [], ◌∷◌, ◌≡◌, refl, sym, ◌∙◌, ap, subst, In,
}
use podcast_backend.Errs.{Error, Arg, Result, ok, err, E, kind_is, database}
use podcast_backend.Wire.Sync.{Record, SyncUpdateRequest, SyncUpdateResponse}
use podcast_backend.Db.Rows.{User}
use podcast_backend.Db.Tx.{Ran, Db, Session}
use podcast_backend.Db.Users.{find_user}
use podcast_backend.Db.Users.Laws.{KeepsIdentity, find_user-update_user}
use podcast_backend.Sync.Env.{Env}
use podcast_backend.Sync.Token.{next_token_least, max_int64}
use podcast_backend.Sync.Invariant.{IsSynced, LibraryUpTo, Wrote-LibraryUpTo}
use podcast_backend.Sync.Collect.Window.{changed_records-In, In-changed_records}
use podcast_backend.Sync.Collect.Since.{ChangedSince, AnyToken, Changed-Since, Since-Changed}
use podcast_backend.Sync.Update.{apply_update, as_database_error}
use podcast_backend.Sync.Update.Parts.{Parts, update_body-Parts, with_token}

with_token-KeepsIdentity : (t : ℤ) → KeepsIdentity (with_token t)
with_token-KeepsIdentity t = record { same_id = λ u. refl; same_deleted = λ u. refl }

module _ (env : Env) (clock : ℕ → ℤ) (db_now : ℤ) (user_id : ℕ) (req : SyncUpdateRequest) where
  -- What InTx and the error wrapper make of the body's result.
  abbrev wrap : Db → Ran SyncUpdateResponse → Result (SyncUpdateResponse × List String) × Db
  wrap d r =
      as_database_error "syncsvc/Engine.ApplyUpdate"
        (elim r [ ok (a, s) ↦ (ok (a, s.unknown_feeds), s.db) | err (e, s) ↦ (err e, d) ])

  wrap-ok :
      (d : Db) (r : Ran SyncUpdateResponse) (resp : SyncUpdateResponse) (feeds : List String)
      (d' : Db)
      → wrap d r ≡ (ok (resp, feeds), d')
      → (s' : Session) × (r ≡ ok (resp, s')) × (s'.db ≡ d')
  wrap-ok d (ok (a, s)) resp feeds d' h = (s, cc, cc)
  wrap-ok d (err e) resp feeds d' h = absurd (cc)

  wrap-err :
      (d : Db) (r : Ran SyncUpdateResponse) (e : Error) (d' : Db)
      → wrap d r ≡ (err e, d')
      → (d' ≡ d) × (kind_is e database ≡ true)
  unfolding E kind_is
  wrap-err d (ok (a, s)) e d' h = absurd (cc)
  wrap-err d (err (x, s)) e d' h =
      let w : E (Arg.op "syncsvc/Engine.ApplyUpdate" ∷ Arg.kind database ∷ Arg.cause x ∷ []) ≡ e =
        cc in
      (cc, subst (λ y. kind_is y database ≡ true) w refl)

  pub apply_update-Parts :
      (d : Db) (resp : SyncUpdateResponse) (feeds : List String) (d' : Db)
      → apply_update env clock db_now user_id req d ≡ (ok (resp, feeds), d')
      → Parts env clock db_now user_id req d resp d'
  unfolding apply_update
  apply_update-Parts d resp feeds d' h =
      let (s', e, same) = wrap-ok d _ resp feeds d' h in
      subst (Parts env clock db_now user_id req d resp) same
        (update_body-Parts env clock db_now user_id req _ resp s' e)

  -- A batch that fails leaves every table as it was, and is reported as a database error.
  pub apply_update_atomic :
      (d : Db) (e : Error) (d' : Db)
      → apply_update env clock db_now user_id req d ≡ (err e, d')
      → (d' ≡ d) × (kind_is e database ≡ true)
  unfolding apply_update
  apply_update_atomic d e d' h = wrap-err d _ e d' h

  -- The user's row after the batch carries the response's token.
  Parts-user :
      (d d' : Db) (resp : SyncUpdateResponse) (p : Parts env clock db_now user_id req d resp d')
      → find_user user_id d'.users ≡ some (with_token resp.last_modified p.user)
  Parts-user d d' resp p =
      subst (λ z. find_user user_id z.users ≡ some (with_token resp.last_modified p.user))
        (sym p.after)
        (find_user-update_user (with_token resp.last_modified)
          (with_token-KeepsIdentity resp.last_modified) user_id p.batch.users p.user
          (subst (λ us. find_user user_id us ≡ some p.user) (sym p.wrote.users) p.found))

  Parts-later :
      (d d' : Db) (resp : SyncUpdateResponse) (p : Parts env clock db_now user_id req d resp d')
      → p.user.sync_last_modified <ℤ max_int64
      → p.user.sync_last_modified <ℤ resp.last_modified
  Parts-later d d' resp p h =
      subst (λ t. p.user.sync_last_modified <ℤ t) (sym p.token)
        (next_token_least (clock p.tick) p.user.sync_last_modified h).0

  Parts-UpTo :
      (d d' : Db) (resp : SyncUpdateResponse) (p : Parts env clock db_now user_id req d resp d')
      → p.user.sync_last_modified <ℤ max_int64
      → IsSynced user_id d
      → LibraryUpTo user_id resp.last_modified d'
  Parts-UpTo d d' resp p h synced =
      let up =
        Wrote-LibraryUpTo user_id p.user.sync_last_modified resp.last_modified d p.batch
          (Parts-later d d' resp p h) p.wrote (synced p.user p.found) in
      subst (LibraryUpTo user_id resp.last_modified) (sym p.after) (record {
        podcasts = up.podcasts;
        episodes = up.episodes;
        folders = up.folders;
        playlists = up.playlists;
        bookmarks = up.bookmarks;
      })

  -- The invariant and the room for one more token, as the theorems assume them.
  pub record IsReady (d : Db) : Type 0 where
    pub synced : IsSynced user_id d
    pub room : (u : User) → find_user user_id d.users ≡ some u → u.sync_last_modified <ℤ max_int64

  after-IsSynced :
      (d d' : Db) (r : Result (SyncUpdateResponse × List String))
      → IsReady d
      → apply_update env clock db_now user_id req d ≡ (r, d')
      → IsSynced user_id d'
  after-IsSynced d d' (err e) ready h u eu =
      subst (IsSynced user_id) (sym (apply_update_atomic d e d' h).0) ready.synced u eu
  after-IsSynced d d' (ok (resp, feeds)) ready h u eu =
      let p = apply_update-Parts d resp feeds d' h in
      let same : with_token resp.last_modified p.user ≡ u =
        some-inj (sym (Parts-user d d' resp p) ∙ eu) in
      subst (λ t. LibraryUpTo user_id t d') (ap (λ v. v.sync_last_modified) same)
        (Parts-UpTo d d' resp p (ready.room p.user p.found) ready.synced)

  -- Whatever the batch, and whether it succeeds or fails, afterwards no row of the user's library
  -- carries a token past the user's, and each table still has unique keys, if that was so before
  -- and the user's token was not the largest int64.
  pub apply_update-IsSynced :
      (d : Db) → IsReady d → IsSynced user_id (apply_update env clock db_now user_id req d).1
  apply_update-IsSynced d ready =
      after-IsSynced d (apply_update env clock db_now user_id req d).1
        (apply_update env clock db_now user_id req d).0 ready refl

  -- A batch that succeeds moves the user's token strictly forward, to the one in the response, and
  -- returns a record exactly if it is the conversion of a row of the user, as the batch left it,
  -- whose token is past the client's: no changed row is left out.
  pub apply_update_complete :
      (d : Db) (resp : SyncUpdateResponse) (feeds : List String) (d' : Db)
      → IsReady d
      → apply_update env clock db_now user_id req d ≡ (ok (resp, feeds), d')
      → ((u : User) × (find_user user_id d.users ≡ some u)
          × (u.sync_last_modified <ℤ resp.last_modified)
          × (find_user user_id d'.users ≡ some (with_token resp.last_modified u)))
        × ((r : Record)
            → In r resp.records ↔ ChangedSince env user_id req.last_modified AnyToken d' r)
  apply_update_complete d resp feeds d' ready h =
      let p = apply_update-Parts d resp feeds d' h in
      let room = ready.room p.user p.found in
      let up = Parts-UpTo d d' resp p room ready.synced in
      (
        (p.user, p.found, Parts-later d d' resp p room, Parts-user d d' resp p),
        λ r. (
          λ i. Changed-Since env user_id req.last_modified resp.last_modified d' r (
              In-changed_records env user_id req.last_modified resp.last_modified d' r
                (subst (In r) p.records i)),
          λ c. subst (In r) (sym p.records) (
              changed_records-In env user_id req.last_modified resp.last_modified d' r
                (Since-Changed env user_id req.last_modified resp.last_modified d' r up c)),
        ),
      )
