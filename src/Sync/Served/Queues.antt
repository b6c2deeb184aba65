-- ===== src/Sync/Served/Queues.antt =====
-- Up Next and the history leave the library and the sync tokens alone.
use podcast_backend.Prelude.{
  ℕ, ℤ, suc, String, Bool, true, false, Option, none, some, List, [], ◌∷◌, refl, ap, inl, str_eq,
  eq_ℤ, pos, sort_by, arith, map,
}
use podcast_backend.Wire.Queue.{UpNextChange, UpNextSyncRequest, HistoryChange}
use podcast_backend.Db.Rows.{User, UpNextItem, History}
use podcast_backend.Db.Tx.{text_checked, Db, or_no_rows, now}
use podcast_backend.Db.Users.{
  get_user_for_update, set_user_up_next_modified, set_user_history_cleared,
}
use podcast_backend.Db.Library.{get_user_episode}
use podcast_backend.Db.Library.Steps.{get_user_episode_step}
use podcast_backend.Db.Queue.{
  user_queue, newest, trim, get_up_next_items, delete_all_up_next_items, insert_up_next_item,
  fine_texts, insert_row, upsert_history_item, tombstone_history_item, delete_history_before,
  trim_history, get_history,
}
use podcast_backend.Sync.Env.{Env}
use podcast_backend.Sync.Token.{fresh_token, next_token}
use podcast_backend.Sync.UpNext.{
  to_response, apply_changes, earlier, insert_items, rewrite_up_next_queue, move_token,
  change_queue, queue_statuses, statuses_if, answer_queue, up_next_body, sync_up_next, changes_of,
}
use podcast_backend.Sync.History.{
  to_change, Action, add, delete, clear_all, other_action, action_of, stamp_or_token,
  apply_history_change, apply_history_changes, change_history, history_body, sync_history,
  max_history_items,
}
use podcast_backend.Sync.Served.{Served, Mild}
use podcast_backend.Sync.Served.Rules.{
  Mildly, Keeps-Mildly, pure-Mildly, read-Mildly, write-Mildly, one-Mildly, uuid_param-Mildly,
  now-Mildly, bind-Mildly, if-Mildly, update_user-Mild,
}
use podcast_backend.Sync.Served.Writers.{in_tx-Served}

-- A write to the queue's table, or to the history's.
up_next-Mild : (d : Db) (t : List UpNextItem) → Mild d (record d { up_next = t })
up_next-Mild d t = record {
  library = record {
    podcasts = refl;
    episodes = refl;
    folders = refl;
    playlists = refl;
    bookmarks = refl;
  };
  tokens = λ id u f. (u, f, refl);
}

history-Mild : (d : Db) (t : List History) → Mild d (record d { history = t })
history-Mild d t = record {
  library = record {
    podcasts = refl;
    episodes = refl;
    folders = refl;
    playlists = refl;
    bookmarks = refl;
  };
  tokens = λ id u f. (u, f, refl);
}

get_user-Mildly : (user : ℕ) → Mildly (get_user_for_update user)
unfolding get_user_for_update
get_user-Mildly user = bind-Mildly _ _ (read-Mildly _) (λ found. one-Mildly found)

fresh_token-Mildly : (clock : ℕ → ℤ) (prev : ℤ) → Mildly (fresh_token clock prev)
fresh_token-Mildly clock prev =
    bind-Mildly (now clock) _ (now-Mildly clock) (λ r. pure-Mildly (next_token r prev))

insert_row-Mildly : (old : Option UpNextItem) (item : UpNextItem) → Mildly (insert_row old item)
insert_row-Mildly none item = write-Mildly _ λ d. up_next-Mild d (item ∷ d.up_next)
insert_row-Mildly (some old) item = λ s a s' h. absurd (ground arith)

text_checked-Mildly : (b : Bool) → Mildly (text_checked b)
text_checked-Mildly true = pure-Mildly tt
text_checked-Mildly false = λ s a s' h. absurd (ground arith)

module _ (env : Env) (clock : ℕ → ℤ) (user : ℕ) where
  insert_item-Mildly : (item : UpNextItem) → Mildly (insert_up_next_item env.is_uuid item)
  unfolding insert_up_next_item
  insert_item-Mildly item = bind-Mildly _ _ (uuid_param-Mildly env.is_uuid item.episode_uuid) λ _.
      bind-Mildly _ _ (text_checked-Mildly (fine_texts item))
        λ _. bind-Mildly _ _ (read-Mildly _) (λ old. insert_row-Mildly old item)

  insert_items-Mildly :
      (i : ℕ) (items : List UpNextItem) → Mildly (insert_items env clock user i items)
  unfolding insert_items
  insert_items-Mildly i [] = pure-Mildly tt
  insert_items-Mildly i (x ∷ items) =
      bind-Mildly _ _ (insert_item-Mildly (record x { user_id = user; position = i }))
        λ _. insert_items-Mildly (suc i) items

  rewrite-Mildly : (q : List UpNextItem) → Mildly (rewrite_up_next_queue env clock user q)
  unfolding rewrite_up_next_queue delete_all_up_next_items
  rewrite-Mildly q =
      bind-Mildly _ _ (write-Mildly _ λ d. up_next-Mild d _) (λ _. insert_items-Mildly 0 q)

  move_token-Mildly : (modified : ℤ) → Mildly (move_token env clock user modified)
  unfolding move_token set_user_up_next_modified
  move_token-Mildly modified = bind-Mildly _ _ (fresh_token-Mildly clock modified) λ token.
      bind-Mildly _ _
        (write-Mildly _ (
          update_user-Mild (λ (u : User). record u { up_next_modified = token }) user
            (record { same_id = λ u. refl; same_deleted = λ u. refl; same_token = λ u. refl })))
        (λ _. pure-Mildly token)

  change_queue-Mildly :
      (modified : ℤ) (cs : List UpNextChange) → Mildly (change_queue env clock user modified cs)
  unfolding change_queue get_up_next_items
  change_queue-Mildly modified [] = pure-Mildly modified
  change_queue-Mildly modified (c ∷ cs) =
      bind-Mildly _ _ (read-Mildly (λ db. user_queue user db.up_next)) λ q.
        bind-Mildly _ _ (rewrite-Mildly (apply_changes user q (sort_by earlier (c ∷ cs))))
          (λ _. move_token-Mildly modified)

  read_episode-Mildly :
      (uuid : String) → Mildly (or_no_rows (get_user_episode env.is_uuid user uuid))
  read_episode-Mildly uuid =
      Keeps-Mildly _ λ s a s' h. ap (λ z. z.db) (get_user_episode_step env.is_uuid s user uuid h).0

  queue_statuses-Mildly : (q : List UpNextItem) → Mildly (queue_statuses env clock user q)
  unfolding queue_statuses
  queue_statuses-Mildly [] = pure-Mildly []
  queue_statuses-Mildly (x ∷ q) =
      bind-Mildly _ _ (read_episode-Mildly x.episode_uuid)
        λ found. bind-Mildly _ _ (queue_statuses-Mildly q) (λ rest. pure-Mildly _)

  statuses_if-Mildly : (b : Bool) (q : List UpNextItem) → Mildly (statuses_if env clock user b q)
  unfolding statuses_if
  statuses_if-Mildly true q = queue_statuses-Mildly q
  statuses_if-Mildly false q = pure-Mildly []

  pub sync_up_next-Served :
      (req : UpNextSyncRequest) (d : Db) → Served clock user d (sync_up_next env clock user req d).1
  unfolding sync_up_next up_next_body answer_queue get_up_next_items
  sync_up_next-Served req d =
      in_tx-Served clock user "syncsvc/Engine.SyncUpNext" (up_next_body env clock user req) d
        λ s a s' h. inl (
          bind-Mildly (get_user_for_update user) _ (get_user-Mildly user)
            (λ u.
              bind-Mildly (change_queue env clock user u.up_next_modified (changes_of req.changes))
                _ (change_queue-Mildly u.up_next_modified (changes_of req.changes))
                λ m. bind-Mildly _ _ (read-Mildly (λ db. user_queue user db.up_next)) λ q.
                  bind-Mildly _ _ (statuses_if-Mildly req.show_play_status q) λ st.
                    pure-Mildly (record {
                      server_modified = m;
                      episodes = map to_response q;
                      episode_sync = st;
                    }))
            s a s' h)

  upsert_item-Mildly : (h : History) → Mildly (upsert_history_item env.is_uuid h)
  unfolding upsert_history_item
  upsert_item-Mildly h =
      bind-Mildly _ _ (uuid_param-Mildly env.is_uuid h.episode_uuid)
        (λ _. write-Mildly _ λ d. history-Mild d _)

  tombstone-Mildly :
      (uuid : String) (t : ℤ) → Mildly (tombstone_history_item env.is_uuid user uuid t)
  unfolding tombstone_history_item
  tombstone-Mildly uuid t =
      bind-Mildly _ _ (uuid_param-Mildly env.is_uuid uuid)
        (λ _. write-Mildly _ λ d. history-Mild d _)

  stamp-Mildly : (modified stamp : ℤ) → Mildly (stamp_or_token env clock modified stamp)
  unfolding stamp_or_token
  stamp-Mildly modified stamp =
      if-Mildly (eq_ℤ stamp (pos 0)) _ _ (fresh_token-Mildly clock modified) (pure-Mildly stamp)

  change-Mildly :
      (modified : ℤ) (a : Action) (cleared : ℤ) (c : HistoryChange)
      → Mildly (apply_history_change env clock user modified a cleared c)
  unfolding apply_history_change delete_history_before
  change-Mildly modified add cleared c =
      if-Mildly (str_eq c.episode "") _ _ (pure-Mildly cleared)
        (bind-Mildly _ _ (upsert_item-Mildly _) (λ _. pure-Mildly cleared))
  change-Mildly modified delete cleared c =
      if-Mildly (str_eq c.episode "") _ _ (pure-Mildly cleared) (
        bind-Mildly _ _ (stamp-Mildly modified c.modified_at)
          λ t. bind-Mildly _ _ (tombstone-Mildly c.episode t) (λ _. pure-Mildly cleared))
  change-Mildly modified clear_all cleared c =
      bind-Mildly _ _ (stamp-Mildly modified c.modified_at)
        λ t. bind-Mildly _ _ (write-Mildly _ λ d. history-Mild d _) (λ _. pure-Mildly t)
  change-Mildly modified other_action cleared c = pure-Mildly cleared

  changes-Mildly :
      (modified cleared : ℤ) (cs : List HistoryChange)
      → Mildly (apply_history_changes env clock user modified cleared cs)
  unfolding apply_history_changes
  changes-Mildly modified cleared [] = pure-Mildly cleared
  changes-Mildly modified cleared (c ∷ cs) =
      bind-Mildly _ _ (change-Mildly modified (action_of c.action) cleared c)
        λ z. changes-Mildly modified z cs

  change_history-Mildly :
      (u : User) (cs : List HistoryChange) → Mildly (change_history env clock user u cs)
  unfolding change_history trim_history set_user_history_cleared
  change_history-Mildly u [] = pure-Mildly _
  change_history-Mildly u (c ∷ cs) =
      bind-Mildly _ _ (changes-Mildly u.history_modified u.history_cleared_at_ms (c ∷ cs))
        λ cleared.
          bind-Mildly _ _
            (write-Mildly _ λ d. history-Mild d (trim user max_history_items d.history))
            λ _. bind-Mildly _ _ (fresh_token-Mildly clock u.history_modified) λ token.
              bind-Mildly _ _
                (write-Mildly _ (
                  update_user-Mild
                    (λ (v : User). record v {
                      history_cleared_at_ms = cleared;
                      history_modified = token;
                    })
                    user
                    (record {
                      same_id = λ v. refl;
                      same_deleted = λ v. refl;
                      same_token = λ v. refl;
                    })))
                (λ _. pure-Mildly (token, cleared))

  pub sync_history-Served :
      (cs : List HistoryChange) (d : Db) → Served clock user d (sync_history env clock user cs d).1
  unfolding sync_history history_body get_history
  sync_history-Served cs d =
      in_tx-Served clock user "syncsvc/Engine.SyncHistory" (history_body env clock user cs) d
        λ s a s' h. inl (
          bind-Mildly (get_user_for_update user) _ (get_user-Mildly user)
            (λ u.
              bind-Mildly (change_history env clock user u cs) _ (change_history-Mildly u cs) λ st.
                bind-Mildly _ _ (read-Mildly (λ db. newest user max_history_items db.history))
                  λ rows. pure-Mildly (record {
                    server_modified = st.0;
                    last_cleared = st.1;
                    changes = map to_change rows;
                  }))
            s a s' h)
