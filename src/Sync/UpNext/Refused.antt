-- ===== src/Sync/UpNext/Refused.antt =====
-- A queue that the database refuses: the converse of Applied.
use podcast_backend.Prelude.{
  ℕ, suc, ℤ, String, Bool, true, false, none, some, List, [], ◌∷◌, str_eq, ◌==◌, ◌≡◌, subst, arith,
}
use podcast_backend.Errs.{ok, err}
use podcast_backend.Wire.Queue.{UpNextChange, UpNextResponse}
use podcast_backend.Db.Table.{find}
use podcast_backend.Db.Rows.{UpNextItem, User, up_next_key}
use podcast_backend.Db.Tx.{Ran, Db, Session, in_tx, ◌>>=◌}
use podcast_backend.Db.Tx.Laws.{>>=-eq-ok}
use podcast_backend.Db.Users.{get_user_for_update}
use podcast_backend.Db.Queue.{get_up_next_items, delete_all_up_next_items, insert_up_next_item}
use podcast_backend.Sync.Env.{Env}
use podcast_backend.Sync.Update.{as_database_error}
use podcast_backend.Sync.Update.Parts.{get_user_step}
use podcast_backend.Sync.UpNext.{
  insert_items, rewrite_up_next_queue, change_queue, move_token, answer_queue, up_next_body,
  sync_up_next,
}
use podcast_backend.Sync.UpNext.Distinct.{Fresh, str_ne-sym}
use podcast_backend.Sync.UpNext.Rewrite.{storable, Accepted, with_up_next, Absent}
use podcast_backend.Sync.UpNext.Applied.{final}

module _ (env : Env) (clock : ℕ → ℤ) (user : ℕ) where
  insert_up_next_item-accepted :
      (row : UpNextItem) (s : Session) (a : Unit {0}) (s' : Session)
      → insert_up_next_item env.is_uuid row s ≡ ok (a, s')
      → (storable env row ≡ true)
        × (find row.user_id row.episode_uuid s.db.up_next ≡ none)
        × (s' ≡ with_up_next (row ∷ s.db.up_next) s)
  unfolding insert_up_next_item
  insert_up_next_item-accepted row s a s' h = (ground arith, ground arith, ground arith)

  Absent-Fresh :
      (x : UpNextItem) (t items : List UpNextItem)
      → (x.user_id == user) ≡ true
      → Absent user (x ∷ t) items
      → Fresh x.episode_uuid items × Absent user t items
  unfolding find
  Absent-Fresh x t [] e a = (tt, tt)
  Absent-Fresh x t (y ∷ items) e a =
      let (f, rest) = Absent-Fresh x t items e a.1 in
      let q = a.0 in
      let p : str_eq x.episode_uuid y.episode_uuid ≡ false = ground arith in
      let r : find user y.episode_uuid t ≡ none = ground arith in
      ((str_ne-sym x.episode_uuid y.episode_uuid p, f), (r, rest))

  same_user : (user == user) ≡ true
  same_user = ground arith

  insert_items-Accepted :
      (i : ℕ) (items : List UpNextItem) (s : Session) (a : Unit {0}) (s' : Session)
      → insert_items env clock user i items s ≡ ok (a, s')
      → Accepted env items × Absent user s.db.up_next items
  unfolding insert_items
  insert_items-Accepted i [] s a s' h = ((tt, tt), tt)
  insert_items-Accepted i (x ∷ items) s a s' h =
      let row = record x { user_id = user; position = i } in
      let (b, s1, e, k) =
        >>=-eq-ok (insert_up_next_item env.is_uuid row)
          (λ _. insert_items env clock user (suc i) items) s h in
      let (valid, absent, same) = insert_up_next_item-accepted row s b s1 e in
      let ((vs, ds), missing) = insert_items-Accepted (suc i) items s1 a s' k in
      let (fresh, rest) =
        Absent-Fresh row s.db.up_next items same_user
          (subst (λ z. Absent user z.db.up_next items) same missing) in
      (((valid, vs), (fresh, ds)), (absent, rest))

  rewrite-Accepted :
      (q : List UpNextItem) (s : Session) (a : Unit {0}) (s' : Session)
      → rewrite_up_next_queue env clock user q s ≡ ok (a, s')
      → Accepted env q
  unfolding rewrite_up_next_queue
  rewrite-Accepted q s a s' h =
      let (b, s1, e, k) =
        >>=-eq-ok (delete_all_up_next_items user) (λ _. insert_items env clock user 0 q) s h in
      (insert_items-Accepted 0 q s1 a s' k).0

  module _ (c : UpNextChange) (cs : List UpNextChange) (show : Bool) where
    change_queue-Accepted :
        (modified : ℤ) (s : Session) (t : ℤ) (s' : Session)
        → change_queue env clock user modified (c ∷ cs) s ≡ ok (t, s')
        → Accepted env (final env clock user c cs show s.db)
    unfolding change_queue get_up_next_items
    change_queue-Accepted modified s t s' h =
        let (b, s1, e, k) =
          >>=-eq-ok (rewrite_up_next_queue env clock user (final env clock user c cs show s.db))
            (λ _. move_token env clock user modified) s h in
        rewrite-Accepted (final env clock user c cs show s.db) s b s1 e

    body-Accepted :
        (s : Session) (resp : UpNextResponse) (s' : Session)
        → up_next_body env clock user
            (record { changes = some (c ∷ cs); show_play_status = show })
            s
          ≡ ok (resp, s')
        → Accepted env (final env clock user c cs show s.db)
    unfolding up_next_body
    body-Accepted s resp s' h =
        let (u, s1, e, k) =
          >>=-eq-ok (get_user_for_update user)
            (λ (v : User).
              change_queue env clock user v.up_next_modified (c ∷ cs)
              >>= answer_queue env clock user show)
            s h in
        let (m, s2, e', k') =
          >>=-eq-ok (change_queue env clock user u.up_next_modified (c ∷ cs))
            (answer_queue env clock user show) s1 k in
        subst (λ z. Accepted env (final env clock user c cs show z.db))
          (get_user_step user s u s1 e).0 (change_queue-Accepted u.up_next_modified s1 m s2 e')

    returned :
        (d : Db) (r : Ran UpNextResponse) (resp : UpNextResponse) (feeds : List String) (d' : Db)
        → as_database_error {A = UpNextResponse × List String} {B = Db} "syncsvc/Engine.SyncUpNext"
            (elim r [ ok (a, s) ↦ (ok (a, s.unknown_feeds), s.db) | err (e, s) ↦ (err e, d) ])
          ≡ (ok (resp, feeds), d')
        → (s' : Session) × (r ≡ ok (resp, s'))
    returned d (ok (a, s)) resp feeds d' h = (s, cc)
    returned d (err e) resp feeds d' h = absurd (cc)

    -- A sync with changes returns a response only if in the resulting queue each episode is a uuid,
    -- no text holds the character NUL, and no episode stands twice: a replacement that names an
    -- episode twice, and is the last change, fails.
    pub sync_up_next-Accepted :
        (d : Db) (resp : UpNextResponse) (feeds : List String) (d' : Db)
        → sync_up_next env clock user
            (record { changes = some (c ∷ cs); show_play_status = show })
            d
          ≡ (ok (resp, feeds), d')
        → Accepted env (final env clock user c cs show d)
    unfolding sync_up_next in_tx
    sync_up_next-Accepted d resp feeds d' h =
        let (s', e) = returned d _ resp feeds d' h in
        body-Accepted (record { db = d; ticks = 0; unknown_feeds = [] }) resp s' e
