-- ===== src/Sync/History/Capped.antt =====
-- SyncHistory caps what it stores.
use podcast_backend.Prelude.{
  ℕ, ◌≤◌, ℤ, map, List, [], ◌∷◌, String, ◌==◌, ◌≡◌, sym, subst, arith, length, select,
}
use podcast_backend.Errs.{ok, err}
use podcast_backend.Wire.Queue.{HistoryChange, HistoryResponse}
use podcast_backend.Db.Table.{Unique}
use podcast_backend.Db.Rows.{User, History, history_key}
use podcast_backend.Db.Tx.{Ran, Db, Session, Tx, pure, in_tx, ◌>>=◌, ◌>>◌}
use podcast_backend.Db.Tx.Laws.{>>=-eq-ok}
use podcast_backend.Db.Users.{get_user_for_update, set_user_history_cleared}
use podcast_backend.Db.Queue.{trim, trim_history, get_history}
use podcast_backend.Db.Queue.Cap.{trim-capped}
use podcast_backend.Sync.Env.{Env}
use podcast_backend.Sync.Token.{fresh_token}
use podcast_backend.Sync.Update.{as_database_error}
use podcast_backend.Sync.Update.Parts.{get_user_step}
use podcast_backend.Sync.History.{
  max_history_items, apply_history_changes, change_history, history_body, sync_history, to_change,
}
use podcast_backend.Sync.History.UniqueRows.{changes-KeepsUnique}

module _ (env : Env) (clock : ℕ → ℤ) (user : ℕ) (c : HistoryChange) (cs : List HistoryChange) where
  abbrev Capped : Db → Type 0
  Capped d = length (select (λ (r : History). r.user_id == user) d.history) ≤ max_history_items

  abbrev stamps : User → ℤ → Tx (ℤ × ℤ)
  stamps u cleared = do
    token ← fresh_token clock u.history_modified
    set_user_history_cleared user cleared token
    pure (token, cleared)

  abbrev trims : User → ℤ → Tx (ℤ × ℤ)
  trims u cleared = trim_history user max_history_items >> stamps u cleared

  trims-history :
      (u : User) (cleared : ℤ) (s : Session) (p : ℤ × ℤ) (s' : Session)
      → trims u cleared s ≡ ok (p, s')
      → s'.db.history ≡ trim user max_history_items s.db.history
  unfolding trim_history set_user_history_cleared
  trims-history u cleared s p s' h = ground arith

  change_history-Capped :
      (u : User) (s : Session) (p : ℤ × ℤ) (s' : Session)
      → Unique s.db.history
      → change_history env clock user u (c ∷ cs) s ≡ ok (p, s')
      → Capped s'.db
  unfolding change_history
  change_history-Capped u s p s' unique h =
      let (cleared, s1, e, k) =
        >>=-eq-ok
          (apply_history_changes env clock user u.history_modified u.history_cleared_at_ms (c ∷ cs))
          (trims u) s h in
      subst
        (λ (l : List History).
          length (select (λ (r : History). r.user_id == user) l) ≤ max_history_items)
        (sym (trims-history u cleared s1 p s' k))
        (trim-capped user max_history_items s1.db.history (
          changes-KeepsUnique env clock user u.history_modified u.history_cleared_at_ms (c ∷ cs) s
            cleared s1 e unique)).0

  abbrev answers : ℤ × ℤ → Tx HistoryResponse
  answers p = do
    rows ← get_history user max_history_items
    pure (record { server_modified = p.0; last_cleared = p.1; changes = map to_change rows })

  answers_same :
      (p : ℤ × ℤ) (s : Session) (resp : HistoryResponse) (s' : Session)
      → answers p s ≡ ok (resp, s')
      → s' ≡ s
  unfolding get_history
  answers_same p s resp s' h = ground arith

  body-Capped :
      (s : Session) (resp : HistoryResponse) (s' : Session)
      → Unique s.db.history
      → history_body env clock user (c ∷ cs) s ≡ ok (resp, s')
      → Capped s'.db
  unfolding history_body
  body-Capped s resp s' unique h =
      let (u, s1, e1, k1) =
        >>=-eq-ok (get_user_for_update user)
          (λ (v : User). change_history env clock user v (c ∷ cs) >>= answers) s h in
      let (p, s2, e2, k2) = >>=-eq-ok (change_history env clock user u (c ∷ cs)) answers s1 k1 in
      subst (λ z. Capped z.db) (sym (answers_same p s2 resp s' k2))
        (change_history-Capped u s1 p s2
          (subst (λ z. Unique z.db.history) (sym (get_user_step user s u s1 e1).0) unique) e2)

  returned :
      (d : Db) (r : Ran HistoryResponse) (resp : HistoryResponse) (feeds : List String) (d' : Db)
      → as_database_error {A = HistoryResponse × List String} {B = Db} "syncsvc/Engine.SyncHistory"
          (elim r [ ok (a, s) ↦ (ok (a, s.unknown_feeds), s.db) | err (e, s) ↦ (err e, d) ])
        ≡ (ok (resp, feeds), d')
      → (s' : Session) × (r ≡ ok (resp, s')) × (s'.db ≡ d')
  returned d (ok (a, s)) resp feeds d' h = (s, cc, cc)
  returned d (err e) resp feeds d' h = absurd (cc)

  -- However many changes a history sync carries, when it succeeds the user has at most a hundred
  -- history rows stored, where the table had its primary key before.
  pub sync_history-capped :
      (d : Db) (resp : HistoryResponse) (feeds : List String) (d' : Db)
      → Unique d.history
      → sync_history env clock user (c ∷ cs) d ≡ (ok (resp, feeds), d')
      → length (select (λ (r : History). r.user_id == user) d'.history) ≤ max_history_items
  unfolding sync_history in_tx
  sync_history-capped d resp feeds d' unique h =
      let (s', e, same) = returned d _ resp feeds d' h in
      subst Capped same
        (body-Capped (record { db = d; ticks = 0; unknown_feeds = [] }) resp s' unique e)
