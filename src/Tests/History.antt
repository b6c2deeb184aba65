-- ===== src/Tests/History.antt =====
-- The history, the milestones and a refused queue, on test data.
use podcast_backend.Prelude.{
  ℕ, ◌≤◌, ℤ, pos, String, false, ◌&&◌, ◌||◌, none, List, [], ◌∷◌, ◌==◌, ◌≡◌, ◌⊎◌, true, refl, inl,
  arith, length, select, sort_by,
}
use podcast_backend.Errs.{ok, err, native, out_of_range}
use podcast_backend.Wire.Queue.{HistoryChange, HistoryResponse, UpNextResponse}
use podcast_backend.Db.Table.{Unique, find, put}
use podcast_backend.Db.Rows.{History, Milestone, history_key, up_next_key}
use podcast_backend.Db.Tx.{Db, Session}
use podcast_backend.Db.Users.{
  find_user, get_user_for_update, update_user, set_user_history_cleared, set_user_up_next_modified,
}
use podcast_backend.Db.Milestones.{has_milestone, get_listening_totals}
use podcast_backend.Db.Queue.{
  trim, upsert_history_item, trim_history, get_history, get_up_next_items, delete_all_up_next_items,
  insert_up_next_item,
}
use podcast_backend.Db.Queue.Latest.{upserted, upserted_comm}
use podcast_backend.Db.Queue.Cap.{trim-capped}
use podcast_backend.Sync.Token.{next_token}
use podcast_backend.Sync.Milestones.{milestone_tiers, detect_milestones}
use podcast_backend.Sync.Milestones.Exact.{
  on_ladder, reached, totals_of, fit, with_milestones, detect_milestones-exact,
}
use podcast_backend.Sync.History.{sync_history, max_history_items, history_row}
use podcast_backend.Sync.History.Capped.{sync_history-capped}
use podcast_backend.Sync.UpNext.{sync_up_next, apply_changes}
use podcast_backend.Sync.UpNext.Rewrite.{Accepted}
use podcast_backend.Sync.UpNext.Refused.{sync_up_next-Accepted}
use podcast_backend.Sync.UpNext.Applied.{final, request}
use podcast_backend.Tests.Data.{env, clock, alice, stored_episode, db}
use podcast_backend.Tests.Queues.{item, queued, play_e2_next}

abbrev heard : String → ℤ → History
heard uuid t = record {
  user_id = 1;
  episode_uuid = uuid;
  podcast_uuid = "p1";
  title = "";
  url = "";
  published = none;
  modified_at = t;
  is_deleted = false;
}

upserted_comm_example :
    find 1 "e1" (upserted (heard "e1" (pos 20)) (upserted (heard "e1" (pos 30)) []))
    ≡ find 1 "e1" (upserted (heard "e1" (pos 30)) (upserted (heard "e1" (pos 20)) []))
upserted_comm_example =
    upserted_comm [] 1 "e1" (heard "e1" (pos 20)) (heard "e1" (pos 30)) (inl (omega arith))

abbrev three : List History
three = heard "e1" (pos 10) ∷ heard "e2" (pos 30) ∷ heard "e3" (pos 20) ∷ []

three-Unique : Unique three
unfolding find
three-Unique = (refl, (refl, (refl, tt)))

trim-capped_example :
    (length (select (λ (r : History). r.user_id == 1) (trim 1 2 three)) ≤ 2)
    × ((other : ℕ)
        → (other == 1) ≡ false
        → select (λ (r : History). r.user_id == other) (trim 1 2 three)
          ≡ select (λ (r : History). r.user_id == other) three)
trim-capped_example = trim-capped 1 2 three three-Unique

abbrev session : Session
session = record { db = db; ticks = 0; unknown_feeds = [] }

detect_milestones-exact_example :
    ((fit 1 db ≡ true)
      × ((ms : List Milestone) × (detect_milestones (pos 1000) 1 session
            ≡ ok (tt, with_milestones ms session))
          × ((u kind tier : ℕ)
              → has_milestone u kind tier ms ≡ (
                  has_milestone u kind tier []
                  || (u == 1
                      && (on_ladder tier milestone_tiers && reached (totals_of 1 db) kind tier))))))
    ⊎ ((fit 1 db ≡ false)
        × (detect_milestones (pos 1000) 1 session ≡ err (native out_of_range, session)))
detect_milestones-exact_example = detect_milestones-exact (pos 1000) 1 session

-- Two positions that the protocol allows make the total too large: the detection fails.
too_long :
    detect_milestones (pos 1000) 1 (record session {
      db = record db {
        episodes =
            record stored_episode {
              user_id = 1;
              played_up_to = pos 9223372036854775807;
              duration = pos 0;
            }
            ∷ record stored_episode { user_id = 1; played_up_to = pos 1; duration = pos 0 }
            ∷ [];
      };
    })
    ≡ err (
      native out_of_range,
      record session {
        db = record db {
          episodes =
              record stored_episode {
                user_id = 1;
                played_up_to = pos 9223372036854775807;
                duration = pos 0;
              }
              ∷ record stored_episode { user_id = 1; played_up_to = pos 1; duration = pos 0 }
              ∷ [];
        };
      },
    )
unfolding detect_milestones get_listening_totals
too_long = refl

abbrev change : HistoryChange
change = record {
  action = pos 1;
  podcast = "p1";
  episode = "e1";
  modified_at = pos 20;
  title = "";
  url = "";
  published = none;
}

abbrev db_heard : Db
db_heard = record db {
  users = record alice { history_modified = pos 1000 } ∷ [];
  history = heard "e1" (pos 20) ∷ [];
}

abbrev history_response : HistoryResponse
history_response = record {
  server_modified = pos 1000;
  last_cleared = pos 0;
  changes = change ∷ [];
}

history_run : sync_history env clock 1 (change ∷ []) db ≡ (ok (history_response, []), db_heard)
unfolding sync_history get_user_for_update find_user upsert_history_item history_row trim_history
    set_user_history_cleared get_history next_token sort_by update_user select find put
history_run = refl

sync_history-capped_example :
    length (select (λ (r : History). r.user_id == 1) db_heard.history) ≤ max_history_items
sync_history-capped_example =
    sync_history-capped env clock 1 change [] db history_response [] db_heard tt history_run

abbrev up_next_response : UpNextResponse
up_next_response = record {
  server_modified = pos 1000;
  episodes =
      record { title = ""; url = ""; podcast = "p1"; uuid = "e1"; published = none }
      ∷ record { title = ""; url = ""; podcast = "p1"; uuid = "e2"; published = none }
      ∷ [];
  episode_sync = [];
}

abbrev db_queued : Db
db_queued = record queued {
  users = record alice { up_next_modified = pos 1000 } ∷ [];
  up_next = item "e2" 1 ∷ item "e1" 0 ∷ [];
}

up_next_run :
    sync_up_next env clock 1 (request env clock 1 play_e2_next [] false) queued
    ≡ (ok (up_next_response, []), db_queued)
unfolding sync_up_next get_user_for_update find_user sort_by update_user select find put next_token
    get_up_next_items delete_all_up_next_items insert_up_next_item set_user_up_next_modified
    apply_changes
up_next_run = refl

sync_up_next-Accepted_example : Accepted env (final env clock 1 play_e2_next [] false queued)
sync_up_next-Accepted_example =
    sync_up_next-Accepted env clock 1 play_e2_next [] false queued up_next_response [] db_queued
      up_next_run
