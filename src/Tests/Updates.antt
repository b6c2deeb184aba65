-- ===== src/Tests/Updates.antt =====
-- ApplyUpdate, and requests of every kind, on test data.
use podcast_backend.Prelude.{
  ℕ, ℤ, pos, ◌≤ℤ◌, ◌<ℤ◌, ◌+ℤ◌, none, some, List, [], ◌∷◌, In, ◌↔◌, ◌≡◌, refl, sym, ap, subst, inl,
  inr, arith, select,
}
use podcast_backend.Errs.{Error, ok, err, E, Arg, database, native, invalid_uuid, is_no_rows}
use podcast_backend.Wire.Sync.{
  SyncUpdateRequest, SyncUpdateResponse, SyncUserBookmark, Record, episode, bookmark,
  UpdateEpisodeRequest,
}
use podcast_backend.Db.Table.{find, put}
use podcast_backend.Db.Rows.{
  User, UserEpisode, podcast_key, episode_key, folder_key, playlist_key, bookmark_key,
}
use podcast_backend.Db.Tx.{Db, Session}
use podcast_backend.Db.Users.{
  find_user, get_user_for_update, set_user_sync_last_modified, update_user,
}
use podcast_backend.Sync.Episode.{apply_episode_record, newer, newer_stamp}
use podcast_backend.Sync.Bookmark.{apply_bookmark_record}
use podcast_backend.Sync.Milestones.{detect_milestones}
use podcast_backend.Sync.Convert.{user_episode_to_proto}
use podcast_backend.Sync.Token.{next_token, max_int64, next_token_least}
use podcast_backend.Sync.Invariant.{LibraryUpTo, IsSynced}
use podcast_backend.Sync.Collect.{collect_changed_records}
use podcast_backend.Sync.Collect.Window.{Changed, collect_exact}
use podcast_backend.Sync.Collect.Since.{ChangedSince, AnyToken}
use podcast_backend.Sync.Update.{apply_update, apply_record, apply_records}
use podcast_backend.Sync.Update.Parts.{with_token}
use podcast_backend.Sync.Update.Theorems.{IsReady, apply_update_complete, apply_update-IsSynced}
use podcast_backend.Sync.Update.Echo.{apply_update_echo}
use podcast_backend.Sync.Served.Ready.{Ready}
use podcast_backend.Sync.Served.Requests.{Call, Request, serve_all, serve_all-IsSynced}
use podcast_backend.Tests.Data.{env, clock, alice, stored_episode, db, played, request}

abbrev row_after : UserEpisode
row_after = record stored_episode {
  playing_status = pos 2;
  playing_status_modified = pos 900;
  played_up_to = pos 60;
  played_up_to_modified = pos 900;
  modified_at = pos 1000;
}

abbrev db_after : Db
db_after = record db {
  users = record alice { sync_last_modified = pos 1000 } ∷ [];
  episodes = row_after ∷ [];
}

abbrev response : SyncUpdateResponse
response = record {
  last_modified = pos 1000;
  records = episode (user_episode_to_proto row_after) ∷ [];
}

alice_only : (id : ℕ) (u : User) → find_user id db.users ≡ some u → u ≡ alice
unfolding find_user
alice_only id u h = ground arith

db-UpTo : (id : ℕ) → LibraryUpTo id (pos 500) db
unfolding find
db-UpTo id = record {
  podcasts = record { bound = λ x i e. elim i [ ]; unique = tt };
  episodes = record {
    bound = λ x i e. elim i [
      | inl q ↦ subst (λ z. z.modified_at ≤ℤ pos 500) (sym q) (omega arith)
      | inr j ↦ elim j [ ]
    ];
    unique = (refl, tt);
  };
  folders = record { bound = λ x i e. elim i [ ]; unique = tt };
  playlists = record { bound = λ x i e. elim i [ ]; unique = tt };
  bookmarks = record { bound = λ x i e. elim i [ ]; unique = tt };
}

db-IsReady : (req : SyncUpdateRequest) → IsReady env clock (pos 1000) 1 req db
db-IsReady req = record {
  synced = λ u h.
      subst (λ v. LibraryUpTo 1 v.sync_last_modified db) (sym (alice_only 1 u h)) (db-UpTo 1);
  room =
      λ u h. subst (λ v. v.sync_last_modified <ℤ max_int64) (sym (alice_only 1 u h)) (omega arith);
}

run : apply_update env clock (pos 1000) 1 request db ≡ (ok (response, []), db_after)
unfolding apply_update user_episode_to_proto get_user_for_update find_user apply_records
    apply_record apply_episode_record find detect_milestones put newer select
    set_user_sync_last_modified collect_changed_records next_token update_user newer_stamp
run = refl

apply_update_complete_example :
    ((u : User) × (find_user 1 db.users ≡ some u)
      × (u.sync_last_modified <ℤ pos 1000)
      × (find_user 1 db_after.users ≡ some (with_token (pos 1000) u)))
    × ((r : Record) → In r response.records ↔ ChangedSince env 1 (pos 500) AnyToken db_after r)
apply_update_complete_example =
    apply_update_complete env clock (pos 1000) 1 request db response [] db_after
      (db-IsReady request) run

apply_update-IsSynced_example : IsSynced 1 (apply_update env clock (pos 1000) 1 request db).1
apply_update-IsSynced_example =
    apply_update-IsSynced env clock (pos 1000) 1 request db (db-IsReady request)

alice_token : (u : User) → find_user 1 db.users ≡ some u → u.sync_last_modified ≡ pos 500
alice_token u h = ap (λ v. v.sync_last_modified) (alice_only 1 u h)

apply_update_echo_example :
    ChangedSince env 1
      (pos 500)
      (λ t. t ≡ pos 1000)
      db_after
      (episode (user_episode_to_proto row_after))
apply_update_echo_example =
    apply_update_echo env clock (pos 1000) 1 request db response [] db_after (db-IsReady request)
      alice_token run (episode (user_episode_to_proto row_after)) (inl refl)

-- A bookmark that names no podcast, after a record that is fine.
abbrev lost_bookmark : SyncUserBookmark
lost_bookmark = record {
  bookmark_uuid = "b1";
  podcast_uuid = "";
  episode_uuid = "e1";
  created_at = none;
  time = none;
  title = none;
  title_modified = none;
  is_deleted = none;
  is_deleted_modified = none;
  excerpt = none;
  end_time = none;
  trim_modified = none;
  tags = [];
  tags_modified = none;
}

abbrev bad_request : SyncUpdateRequest
bad_request = record {
  last_modified = pos 500;
  records = episode played ∷ bookmark lost_bookmark ∷ [];
}

abbrev bad_uuid : Error
bad_uuid = E (
    Arg.op "syncsvc/Engine.ApplyUpdate"
    ∷ Arg.kind database
    ∷ Arg.cause (native (invalid_uuid ""))
    ∷ [])

-- The rows that the batch wrote before its last record are rolled back.
bad_run : apply_update env clock (pos 1000) 1 bad_request db ≡ (err bad_uuid, db)
unfolding apply_update user_episode_to_proto get_user_for_update find_user apply_records
    apply_record apply_episode_record find detect_milestones put newer select
    set_user_sync_last_modified collect_changed_records next_token update_user newer_stamp
    apply_bookmark_record E is_no_rows
bad_run = refl

abbrev position : UpdateEpisodeRequest
position = record {
  uuid = "e1";
  podcast = "p1";
  position = some (pos 61);
  status = pos 0;
  duration = pos 0;
}

abbrev calls : List Call
calls =
    record { user = 1; clock = clock; db_now = pos 1000; request = Request.episode position }
    ∷ record { user = 1; clock = clock; db_now = pos 1000; request = Request.sync request }
    ∷ []

db-Ready : Ready 2 db
db-Ready = record {
  synced = λ id u h.
      subst (λ v. LibraryUpTo id v.sync_last_modified db) (sym (alice_only id u h)) (db-UpTo id);
  room = λ id u h.
      subst (λ v. v.sync_last_modified +ℤ pos 2 ≤ℤ max_int64) (sym (alice_only id u h))
        (ground arith);
}

serve_all-IsSynced_example : IsSynced 1 (serve_all env calls db)
serve_all-IsSynced_example =
    serve_all-IsSynced env 2 calls db (omega arith) ((λ i. ground arith), ((λ i. ground arith), tt))
      db-Ready 1

abbrev session : Session
session = record { db = db_after; ticks = 0; unknown_feeds = [] }

collect_exact_example :
    (records : List Record) × (collect_changed_records env 1 (pos 500) (pos 1000) session
      ≡ ok (records, session))
    × ((r : Record) → In r records → Changed env 1 (pos 500) (pos 1000) db_after r)
    × ((r : Record) → Changed env 1 (pos 500) (pos 1000) db_after r → In r records)
collect_exact_example = collect_exact env 1 (pos 500) (pos 1000) session

next_token_least_example :
    (pos 500 <ℤ next_token (pos 400) (pos 500))
    × (pos 400 ≤ℤ next_token (pos 400) (pos 500))
    × ((t : ℤ) → pos 500 <ℤ t → pos 400 ≤ℤ t → next_token (pos 400) (pos 500) ≤ℤ t)
next_token_least_example = next_token_least (pos 400) (pos 500) (omega arith)
