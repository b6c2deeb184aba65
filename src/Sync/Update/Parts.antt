-- ===== src/Sync/Update/Parts.antt =====
-- A batch that returned, taken apart.
use podcast_backend.Prelude.{ℕ, ℤ, some, List, ◌≡◌, refl, sym, ◌∙◌, subst, arith}
use podcast_backend.Errs.{ok}
use podcast_backend.Wire.Sync.{Record, SyncUpdateRequest, SyncUpdateResponse}
use podcast_backend.Db.Rows.{User}
use podcast_backend.Db.Tx.{Ran, Db, Session, Tx, pure, ◌>>=◌, ◌>>◌}
use podcast_backend.Db.Tx.Laws.{>>=-eq-ok}
use podcast_backend.Db.Users.{
  find_user, update_user, get_user_for_update, set_user_sync_last_modified,
}
use podcast_backend.Db.Wrote.{Wrote, Wrote-trans}
use podcast_backend.Sync.Env.{Env}
use podcast_backend.Sync.Token.{next_token, fresh_token}
use podcast_backend.Sync.Collect.{collect_changed_records}
use podcast_backend.Sync.Collect.Window.{changed_records, collect-eq}
use podcast_backend.Sync.Update.{apply_records, milestones_step, has_episode_records, update_body}
use podcast_backend.Sync.Update.Batch.{apply_records-Writes, milestones_step-Writes}

abbrev pub with_token : ℤ → User → User
with_token t u = record u { sync_last_modified = t }

pub get_user_step :
    (id : ℕ) (s : Session) (u : User) (s' : Session)
    → get_user_for_update id s ≡ ok (u, s')
    → (s' ≡ s) × (find_user id s.db.users ≡ some u)
unfolding get_user_for_update
get_user_step id s u s' h = (ground arith, ground arith)

pub set_token_step :
    (id : ℕ) (t : ℤ) (s : Session) (a : Unit {0}) (s' : Session)
    → set_user_sync_last_modified id t s ≡ ok (a, s')
    → s'.db ≡ record s.db { users = update_user id (with_token t) s.db.users }
unfolding set_user_sync_last_modified
set_token_step id t s a s' h = ground arith

pub fresh_token_step :
    (clock : ℕ → ℤ) (prev : ℤ) (s : Session) (t : ℤ) (s' : Session)
    → fresh_token clock prev s ≡ ok (t, s')
    → (s'.db ≡ s.db) × (t ≡ next_token (clock s.ticks) prev)
fresh_token_step clock prev s t s' h = (ground arith, ground arith)

module _ (env : Env) (clock : ℕ → ℤ) (db_now : ℤ) (user_id : ℕ) (req : SyncUpdateRequest) where
  -- The user was there; the rows were written under the next token, which the user's row and the
  -- response carry; the response holds what changed in the client's window, after the writes.
  pub record Parts (d : Db) (resp : SyncUpdateResponse) (d' : Db) : Type 0 where
    pub user : User
    pub tick : ℕ
    pub batch : Db
    pub found : find_user user_id d.users ≡ some user
    pub token : resp.last_modified ≡ next_token (clock tick) user.sync_last_modified
    pub wrote : Wrote user_id resp.last_modified d batch
    pub after :
        d'
        ≡ record batch { users = update_user user_id (with_token resp.last_modified) batch.users }
    pub records : resp.records ≡ changed_records env user_id req.last_modified resp.last_modified d'

  -- What is left to do after each step of the body.
  abbrev responds : ℤ → List Record → Tx SyncUpdateResponse
  responds token records = pure (record { last_modified = token; records = records })

  abbrev collects : ℤ → Tx SyncUpdateResponse
  collects token = collect_changed_records env user_id req.last_modified token >>= responds token

  abbrev stores : ℤ → Tx SyncUpdateResponse
  stores token = set_user_sync_last_modified user_id token >> collects token

  abbrev detects : ℤ → Tx SyncUpdateResponse
  detects token =
      milestones_step env clock db_now user_id (has_episode_records req.records) >> stores token

  abbrev applies : ℤ → Tx SyncUpdateResponse
  applies token = apply_records env clock db_now user_id token req.records >> detects token

  abbrev mints : User → Tx SyncUpdateResponse
  mints user = fresh_token clock user.sync_last_modified >>= applies

  responds_step :
      (token : ℤ) (recs : List Record) (s1 : Session) (resp : SyncUpdateResponse) (s' : Session)
      (all : List Record) (s : Session)
      → responds token recs s1 ≡ ok (resp, s')
      → ◌≡◌ {A = Ran (List Record)} (ok (recs, s1)) (ok (all, s))
      → (resp.last_modified ≡ token) × (resp.records ≡ all) × (s'.db ≡ s.db)
  responds_step token recs s1 resp s' all s k q = (cc, cc, cc)

  collects_step :
      (token : ℤ) (s : Session) (resp : SyncUpdateResponse) (s' : Session)
      → collects token s ≡ ok (resp, s')
      → (resp.last_modified ≡ token)
        × (resp.records ≡ changed_records env user_id req.last_modified token s.db)
        × (s'.db ≡ s.db)
  collects_step token s resp s' h =
      let (recs, s1, e, k) =
        >>=-eq-ok (collect_changed_records env user_id req.last_modified token) (responds token) s
          h in
      responds_step token recs s1 resp s' _ s k
        (sym e ∙ collect-eq env user_id req.last_modified token s.db s refl)

  stores_step :
      (token : ℤ) (s : Session) (resp : SyncUpdateResponse) (s' : Session)
      → stores token s ≡ ok (resp, s')
      → (resp.last_modified ≡ token)
        × (s'.db ≡ record s.db { users = update_user user_id (with_token token) s.db.users })
        × (resp.records ≡ changed_records env user_id req.last_modified token s'.db)
  stores_step token s resp s' h =
      let (a, s1, e, k) =
        >>=-eq-ok (set_user_sync_last_modified user_id token) (λ _. collects token) s h in
      let (lm, rs, same) = collects_step token s1 resp s' k in
      (
        lm,
        same ∙ set_token_step user_id token s a s1 e,
        subst (λ d. resp.records ≡ changed_records env user_id req.last_modified token d) (sym same)
            rs,
      )

  applies_step :
      (token : ℤ) (s : Session) (resp : SyncUpdateResponse) (s' : Session)
      → applies token s ≡ ok (resp, s')
      → (batch : Db) × Wrote user_id token s.db batch
        × (resp.last_modified ≡ token)
        × (s'.db ≡ record batch { users = update_user user_id (with_token token) batch.users })
        × (resp.records ≡ changed_records env user_id req.last_modified token s'.db)
  applies_step token s resp s' h =
      let (a, s1, e, k) =
        >>=-eq-ok (apply_records env clock db_now user_id token req.records) (λ _. detects token) s
          h in
      let (b, s2, e', k') =
        >>=-eq-ok (milestones_step env clock db_now user_id (has_episode_records req.records))
          (λ _. stores token) s1 k in
      let (lm, after, rs) = stores_step token s2 resp s' k' in
      (
        s2.db,
        Wrote-trans user_id token s.db s1.db s2.db
            (apply_records-Writes env clock db_now user_id token req.records s a s1 e)
            (milestones_step-Writes env clock db_now user_id token (has_episode_records req.records)
              s1 b s2 e'),
        lm,
        after,
        rs,
      )

  mints-Parts :
      (user : User) (s : Session) (resp : SyncUpdateResponse) (s' : Session)
      → find_user user_id s.db.users ≡ some user
      → mints user s ≡ ok (resp, s')
      → Parts s.db resp s'.db
  mints-Parts user s resp s' found h =
      let (token, s1, e, k) = >>=-eq-ok (fresh_token clock user.sync_last_modified) applies s h in
      let (same, et) = fresh_token_step clock user.sync_last_modified s token s1 e in
      let (batch, wrote, lm, after, rs) = applies_step token s1 resp s' k in
      record {
        user = user;
        tick = s.ticks;
        batch = batch;
        found = found;
        token = lm ∙ et;
        wrote =
            subst (λ t. Wrote user_id t s.db batch) (sym lm)
              (subst (λ d. Wrote user_id token d batch) same wrote);
        after =
            subst
              (λ t. s'.db ≡ record batch { users = update_user user_id (with_token t) batch.users })
              (sym lm) after;
        records =
            subst (λ t. resp.records ≡ changed_records env user_id req.last_modified t s'.db)
              (sym lm) rs;
      }

  pub update_body-Parts :
      (s : Session) (resp : SyncUpdateResponse) (s' : Session)
      → update_body env clock db_now user_id req s ≡ ok (resp, s')
      → Parts s.db resp s'.db
  unfolding update_body
  update_body-Parts s resp s' h =
      let (user, s1, e, k) = >>=-eq-ok (get_user_for_update user_id) mints s h in
      let (same, found) = get_user_step user_id s user s1 e in
      subst (λ z. Parts z.db resp s'.db) same
        (mints-Parts user s1 resp s'
          (subst (λ z. find_user user_id z.db.users ≡ some user) (sym same) found) k)
