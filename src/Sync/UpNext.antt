-- ===== src/Sync/UpNext.antt =====
-- syncsvc/upnext.go: the Up Next queue.
pub mod Distinct
pub mod Play
pub mod Rewrite
pub mod Applied
pub mod Refused
use podcast_backend.Prelude.{
  ℕ, zero, suc, ℤ, pos, eq_ℤ, ltb_ℤ, String, Bool, true, false, not, Option, none, some, List, [],
  ◌∷◌, str_eq, length, map, select, sort_by, if◌then◌else◌,
}
use podcast_backend.Errs.{Result}
use podcast_backend.Wire.Queue.{
  UpNextEpisodeRequest, UpNextChange, UpNextSyncRequest, UpNextEpisode, UpNextEpisodeSync,
  UpNextResponse,
}
use podcast_backend.Db.Rows.{UpNextItem, UserEpisode}
use podcast_backend.Db.Tx.{Tx, Db, pure, or_no_rows, in_tx, ◌>>=◌, ◌>>◌}
use podcast_backend.Db.Users.{get_user_for_update, set_user_up_next_modified}
use podcast_backend.Db.Library.{get_user_episode}
use podcast_backend.Db.Queue.{get_up_next_items, delete_all_up_next_items, insert_up_next_item}
use podcast_backend.Sync.Env.{Env}
use podcast_backend.Sync.Token.{fresh_token}
use podcast_backend.Sync.Convert.{copy_ptr, to_int32}
use podcast_backend.Sync.Update.{as_database_error}

-- The change actions of the client.
pub data Action : Type 0 where
  play_now play_next play_last remove replace other_action : Action

unfoldable pub action_of : ℤ → Action
action_of a =
    if eq_ℤ a (pos 5)
    then replace
    else if eq_ℤ a (pos 4)
    then remove
    else if eq_ℤ a (pos 1)
    then play_now
    else if eq_ℤ a (pos 2)
    then play_next
    else if eq_ℤ a (pos 3)
    then play_last
    else other_action

unfoldable pub remove_from_queue : List UpNextItem → String → List UpNextItem
remove_from_queue queue uuid = select (λ item. not (str_eq item.episode_uuid uuid)) queue

-- The item of a change; the position is set when the queue is written.
unfoldable pub change_item : ℕ → UpNextChange → UpNextItem
change_item user change = record {
  user_id = user;
  episode_uuid = change.uuid;
  podcast_uuid = change.podcast;
  title = change.title;
  url = change.url;
  published = copy_ptr change.published;
  position = 0;
}

abbrev request_item : ℕ → UpNextEpisodeRequest → UpNextItem
request_item user ep = record {
  user_id = user;
  episode_uuid = ep.uuid;
  podcast_uuid = ep.podcast;
  title = ep.title;
  url = ep.url;
  published = copy_ptr ep.published;
  position = 0;
}

-- The loop of the replacement, which skips an episode with no uuid.
unfoldable pub replacement : ℕ → List UpNextEpisodeRequest → List UpNextItem
replacement user [] = []
replacement user (ep ∷ eps) =
    let rest = replacement user eps in
    if str_eq ep.uuid "" then rest else request_item user ep ∷ rest

-- Where the item goes in a queue of n others: the head, after the head, the end.
unfoldable pub play_index : Action → ℕ → ℕ
play_index play_now n = 0
play_index play_next zero = 0
play_index play_next (suc n) = 1
play_index _ n = n

-- append, copy and the assignment: the tail from the index moves up by one.
unfoldable pub insert_at : ℕ → UpNextItem → List UpNextItem → List UpNextItem
insert_at zero item queue = item ∷ queue
insert_at (suc i) item [] = item ∷ []
insert_at (suc i) item (q ∷ queue) = q ∷ insert_at i item queue

unfoldable pub play : ℕ → Action → UpNextChange → List UpNextItem → List UpNextItem
unfolding remove_from_queue change_item play_index insert_at
play user action change queue =
    if str_eq change.uuid ""
    then queue
    else (let rest = remove_from_queue queue change.uuid in
        insert_at (play_index action (length rest)) (change_item user change) rest)

unfoldable pub apply_action : ℕ → Action → UpNextChange → List UpNextItem → List UpNextItem
unfolding play replacement remove_from_queue
apply_action user replace change queue = replacement user change.episodes
apply_action user remove change queue = remove_from_queue queue change.uuid
apply_action user play_now change queue = play user play_now change queue
apply_action user play_next change queue = play user play_next change queue
apply_action user play_last change queue = play user play_last change queue
apply_action user other_action change queue = queue

-- applyUpNextChange
unfoldable pub apply_up_next_change : ℕ → List UpNextItem → UpNextChange → List UpNextItem
unfolding action_of apply_action
apply_up_next_change user queue change = apply_action user (action_of change.action) change queue

-- The loop over the changes.
unfoldable pub apply_changes : ℕ → List UpNextItem → List UpNextChange → List UpNextItem
unfolding apply_up_next_change
apply_changes user queue [] = queue
apply_changes user queue (c ∷ cs) = apply_changes user (apply_up_next_change user queue c) cs

abbrev pub earlier : UpNextChange → UpNextChange → Bool
earlier a b = ltb_ℤ a.modified b.modified

abbrev pub to_response : UpNextItem → UpNextEpisode
to_response item = record {
  title = item.title;
  url = item.url;
  podcast = item.podcast_uuid;
  uuid = item.episode_uuid;
  published = copy_ptr item.published;
}

abbrev pub play_status : UserEpisode → UpNextEpisodeSync
play_status row = record {
  uuid = row.episode_uuid;
  played_up_to = to_int32 row.played_up_to;
  duration = to_int32 row.duration;
}

-- `continue` where the episode has no row.
abbrev pub add_status : Option UserEpisode → List UpNextEpisodeSync → List UpNextEpisodeSync
add_status none rest = rest
add_status (some row) rest = play_status row ∷ rest

abbrev pub changes_of : Option (List UpNextChange) → List UpNextChange
changes_of none = []
changes_of (some cs) = cs

module _ (env : Env) (clock : ℕ → ℤ) where
  unfoldable pub insert_items : ℕ → ℕ → List UpNextItem → Tx Unit
  insert_items user i [] = pure tt
  insert_items user i (item ∷ items) =
      insert_up_next_item env.is_uuid (record item { user_id = user; position = i })
      >> insert_items user (suc i) items

  -- rewriteUpNextQueue
  unfoldable pub rewrite_up_next_queue : ℕ → List UpNextItem → Tx Unit
  unfolding insert_items
  rewrite_up_next_queue user queue = delete_all_up_next_items user >> insert_items user 0 queue

  unfoldable pub move_token : ℕ → ℤ → Tx ℤ
  move_token user modified = do
    token ← fresh_token clock modified
    set_user_up_next_modified user token
    pure token

  -- The part under `req.UpNext != nil && len(req.UpNext.Changes) > 0`, which returns the queue's
  -- new token, or the old one where there is nothing to apply.
  unfoldable pub change_queue : ℕ → ℤ → List UpNextChange → Tx ℤ
  unfolding apply_changes rewrite_up_next_queue move_token
  change_queue user modified [] = pure modified
  change_queue user modified (c ∷ cs) = do
    queue ← get_up_next_items user
    rewrite_up_next_queue user (apply_changes user queue (sort_by earlier (c ∷ cs)))
    move_token user modified

  unfoldable pub queue_statuses : ℕ → List UpNextItem → Tx (List UpNextEpisodeSync)
  queue_statuses user [] = pure []
  queue_statuses user (item ∷ items) = do
    found ← or_no_rows (get_user_episode env.is_uuid user item.episode_uuid)
    rest ← queue_statuses user items
    pure (add_status found rest)

  unfoldable pub statuses_if : ℕ → Bool → List UpNextItem → Tx (List UpNextEpisodeSync)
  unfolding queue_statuses
  statuses_if user true queue = queue_statuses user queue
  statuses_if user false queue = pure []

  -- The part after the changes: the queue as it is stored, and the statuses where asked for.
  unfoldable pub answer_queue : ℕ → Bool → ℤ → Tx UpNextResponse
  unfolding statuses_if
  answer_queue user show modified = do
    queue ← get_up_next_items user
    statuses ← statuses_if user show queue
    pure (record {
      server_modified = modified;
      episodes = map to_response queue;
      episode_sync = statuses;
    })

  unfoldable pub up_next_body : ℕ → UpNextSyncRequest → Tx UpNextResponse
  unfolding change_queue answer_queue
  up_next_body user_id req = do
    user ← get_user_for_update user_id
    modified ← change_queue user_id user.up_next_modified (changes_of req.changes)
    answer_queue user_id req.show_play_status modified

  -- SyncUpNext
  unfoldable pub sync_up_next :
      ℕ → UpNextSyncRequest → Db → Result (UpNextResponse × List String) × Db
  unfolding up_next_body in_tx
  sync_up_next user_id req db =
      as_database_error "syncsvc/Engine.SyncUpNext" (in_tx (up_next_body user_id req) db)
