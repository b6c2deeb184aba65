-- ===== src/Sync/UpNext/Applied.antt =====
-- SyncUpNext from end to end.
use podcast_backend.Prelude.{ℕ, ℤ, Bool, some, if◌then◌else◌, List, [], ◌∷◌, map, sort_by}
use podcast_backend.Wire.Queue.{UpNextEpisodeSync, UpNextChange, UpNextSyncRequest, UpNextResponse}
use podcast_backend.Db.Table.{find}
use podcast_backend.Db.Rows.{UpNextItem, UserEpisode, episode_key}
use podcast_backend.Db.Tx.{Db, Session}
use podcast_backend.Db.Users.{update_user}
use podcast_backend.Db.Queue.{user_queue}
use podcast_backend.Sync.Env.{Env}
use podcast_backend.Sync.UpNext.{apply_changes, earlier, to_response, add_status}

-- The stored positions of the queue's episodes, an episode without a row left out.
abbrev pub statuses : ℕ → List UserEpisode → List UpNextItem → List UpNextEpisodeSync
statuses user rows [] = []
statuses user rows (x ∷ q) = add_status (find user x.episode_uuid rows) (statuses user rows q)

module _ (env : Env) (clock : ℕ → ℤ) (user_id : ℕ) (c : UpNextChange) (cs : List UpNextChange)
    (show : Bool) where
  -- The queue after the changes, oldest first.
  abbrev pub final : Db → List UpNextItem
  final db = apply_changes user_id (user_queue user_id db.up_next) (sort_by earlier (c ∷ cs))

  abbrev pub request : UpNextSyncRequest
  request = record { changes = some (c ∷ cs); show_play_status = show }

  abbrev answer : ℤ → Db → UpNextResponse
  answer token db = record {
    server_modified = token;
    episodes = map to_response (final db);
    episode_sync = if show then statuses user_id db.episodes (final db) else [];
  }

  abbrev start : Db → Session
  start db = record { db = db; ticks = 0; unknown_feeds = [] }

  abbrev after : ℤ → List UpNextItem → Db → Db
  after token t db = record db {
    up_next = t;
    users = update_user user_id (λ u. record u { up_next_modified = token }) db.users;
  }
