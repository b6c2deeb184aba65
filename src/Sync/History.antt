-- ===== src/Sync/History.antt =====
-- syncsvc/history.go: the listening history.
pub mod UniqueRows
pub mod Capped
use podcast_backend.Prelude.{
  ℕ, ℤ, pos, eq_ℤ, String, Bool, true, false, List, [], ◌∷◌, str_eq, map, if◌then◌else◌,
}
use podcast_backend.Errs.{Result}
use podcast_backend.Wire.Queue.{HistoryChange, HistoryResponse}
use podcast_backend.Db.Rows.{User, History}
use podcast_backend.Db.Tx.{Tx, Db, pure, in_tx, ◌>>=◌, ◌>>◌}
use podcast_backend.Db.Users.{get_user_for_update, set_user_history_cleared}
use podcast_backend.Db.Queue.{
  upsert_history_item, tombstone_history_item, delete_history_before, trim_history, get_history,
}
use podcast_backend.Sync.Env.{Env}
use podcast_backend.Sync.Token.{fresh_token}
use podcast_backend.Sync.Convert.{copy_ptr}
use podcast_backend.Sync.Update.{as_database_error}

abbrev pub max_history_items : ℕ
max_history_items = 100

-- The change actions of the client.
pub data Action : Type 0 where
  add delete clear_all other_action : Action

unfoldable pub action_of : ℤ → Action
action_of a =
    if eq_ℤ a (pos 1)
    then add
    else if eq_ℤ a (pos 2)
    then delete
    else if eq_ℤ a (pos 3)
    then clear_all
    else other_action

unfoldable pub history_row : ℕ → HistoryChange → History
history_row user change = record {
  user_id = user;
  episode_uuid = change.episode;
  podcast_uuid = change.podcast;
  title = change.title;
  url = change.url;
  published = copy_ptr change.published;
  modified_at = change.modified_at;
  is_deleted = false;
}

history_action : Bool → ℤ
history_action false = pos 1
history_action true = pos 2

unfoldable pub to_change : History → HistoryChange
unfolding history_action
to_change row = record {
  action = history_action row.is_deleted;
  podcast = row.podcast_uuid;
  episode = row.episode_uuid;
  modified_at = row.modified_at;
  title = row.title;
  url = row.url;
  published = copy_ptr row.published;
}

module _ (env : Env) (clock : ℕ → ℤ) where
  -- A change with no stamp gets a fresh token.
  unfoldable pub stamp_or_token : ℤ → ℤ → Tx ℤ
  stamp_or_token modified stamp =
      if eq_ℤ stamp (pos 0) then fresh_token clock modified else pure stamp

  -- One turn of the loop: the time of the last clearing after it. `modified` is the user's
  -- history_modified, which serverModified still is inside the loop.
  unfoldable pub apply_history_change : ℕ → ℤ → Action → ℤ → HistoryChange → Tx ℤ
  unfolding stamp_or_token
  apply_history_change user modified add cleared change =
      if str_eq change.episode ""
      then pure cleared
      else (do upsert_history_item env.is_uuid (history_row user change); pure cleared)
  apply_history_change user modified delete cleared change =
      if str_eq change.episode "" then pure cleared else (do
        stamp ← stamp_or_token modified change.modified_at
        tombstone_history_item env.is_uuid user change.episode stamp
        pure cleared)
  apply_history_change user modified clear_all cleared change = do
    cleared_at ← stamp_or_token modified change.modified_at
    delete_history_before user cleared_at
    pure cleared_at
  apply_history_change user modified other_action cleared change = pure cleared

  unfoldable pub apply_history_changes : ℕ → ℤ → ℤ → List HistoryChange → Tx ℤ
  unfolding apply_history_change action_of
  apply_history_changes user modified cleared [] = pure cleared
  apply_history_changes user modified cleared (c ∷ cs) = do
    cleared' ← apply_history_change user modified (action_of c.action) cleared c
    apply_history_changes user modified cleared' cs

  -- The part under len(req.Changes) > 0: serverModified and lastCleared after it.
  unfoldable pub change_history : ℕ → User → List HistoryChange → Tx (ℤ × ℤ)
  unfolding apply_history_changes
  change_history user_id user [] = pure (user.history_modified, user.history_cleared_at_ms)
  change_history user_id user (c ∷ cs) = do
    cleared ←
        apply_history_changes user_id user.history_modified user.history_cleared_at_ms (c ∷ cs)
    trim_history user_id max_history_items
    token ← fresh_token clock user.history_modified
    set_user_history_cleared user_id cleared token
    pure (token, cleared)

  unfoldable pub history_body : ℕ → List HistoryChange → Tx HistoryResponse
  unfolding change_history to_change
  history_body user_id changes = do
    user ← get_user_for_update user_id
    stamps ← change_history user_id user changes
    rows ← get_history user_id max_history_items
    pure (record {
      server_modified = stamps.0;
      last_cleared = stamps.1;
      changes = map to_change rows;
    })

  -- SyncHistory
  unfoldable pub sync_history :
      ℕ → List HistoryChange → Db → Result (HistoryResponse × List String) × Db
  unfolding history_body in_tx
  sync_history user_id changes db =
      as_database_error "syncsvc/Engine.SyncHistory" (in_tx (history_body user_id changes) db)
