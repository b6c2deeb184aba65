-- ===== src/Tests/Queues.antt =====
-- Up Next, the history and the endpoints on one episode, on test data.
use podcast_backend.Prelude.{
  ℕ, or_else, pos, String, true, false, none, some, List, [], ◌∷◌, ◌≡◌, refl, inl, inr,
  if◌then◌else◌,
}
use podcast_backend.Errs.{ok, err, E, Arg, database, native, invalid_uuid}
use podcast_backend.Wire.Queue.{UpNextChange}
use podcast_backend.Wire.Sync.{UpdateEpisodeRequest, UpdateEpisodeStarRequest}
use podcast_backend.Db.Table.{at, find, put}
use podcast_backend.Db.Rows.{
  UserEpisode, UpNextItem, History, episode_key, up_next_key, history_key,
}
use podcast_backend.Db.Tx.{Db}
use podcast_backend.Db.Users.{find_user, update_user}
use podcast_backend.Db.Queue.{upsert_history}
use podcast_backend.Db.Queue.Latest.{later_row, upsert_history-find}
use podcast_backend.Sync.Update.Parts.{with_token}
use podcast_backend.Sync.Episode.{new_episode}
use podcast_backend.Sync.Token.{next_token}
use podcast_backend.Sync.Realtime.{update_episode, update_episode_star}
use podcast_backend.Sync.Realtime.Updated.{Updated}
use podcast_backend.Sync.Realtime.Effects.{
  update_episode_writes, update_episode_skips, update_episode_star_fails,
}
use podcast_backend.Sync.UpNext.{
  remove, replace, action_of, remove_from_queue, change_item, apply_up_next_change, apply_action,
  replacement,
}
use podcast_backend.Sync.UpNext.Distinct.{Distinct}
use podcast_backend.Sync.UpNext.Play.{
  Placed, apply_up_next_change-Placed, apply_up_next_change-others, apply_action-Distinct,
}
use podcast_backend.Sync.UpNext.Applied.{final}
use podcast_backend.Tests.Data.{env, clock, alice, stored_episode, db}

abbrev pub item : String → ℕ → UpNextItem
item uuid i = record {
  user_id = 1;
  episode_uuid = uuid;
  podcast_uuid = "p1";
  title = "";
  url = "";
  published = none;
  position = i;
}

abbrev pub two : List UpNextItem
two = item "e1" 0 ∷ item "e2" 1 ∷ []

abbrev pub queued : Db
queued = record db { up_next = two }

abbrev pub play_e2_next : UpNextChange
play_e2_next = record {
  uuid = "e2";
  action = pos 2;
  modified = pos 10;
  title = "";
  url = "";
  podcast = "p1";
  episodes = [];
  published = none;
}

abbrev play_e3_now : UpNextChange
play_e3_now = record play_e2_next { uuid = "e3"; action = pos 1; modified = pos 5 }

apply_up_next_change-Placed_example :
    Placed
      (change_item 1 play_e2_next)
      (remove_from_queue two "e2")
      (pos 2)
      (apply_up_next_change 1 two play_e2_next)
apply_up_next_change-Placed_example =
    apply_up_next_change-Placed 1 two play_e2_next (inr (inl refl)) refl

not_replace : action_of (pos 2) ≡ replace → ⊥
unfolding action_of
not_replace e = cc

apply_up_next_change-others_example :
    remove_from_queue (apply_up_next_change 1 two play_e2_next) "e2" ≡ remove_from_queue two "e2"
apply_up_next_change-others_example = apply_up_next_change-others 1 two play_e2_next not_replace

nothing_twice : Distinct (replacement 1 [])
unfolding replacement
nothing_twice = tt

apply_action-Distinct_example : Distinct (apply_action 1 remove play_e2_next two)
apply_action-Distinct_example =
    apply_action-Distinct 1 remove two play_e2_next nothing_twice ((refl, tt), (tt, tt))

abbrev changed : List UpNextItem
changed = final env clock 1 play_e2_next (play_e3_now ∷ []) true queued

alice_found : find_user 1 db.users ≡ some alice
unfolding find_user
alice_found = refl

abbrev heard : History
heard = record {
  user_id = 1;
  episode_uuid = "e1";
  podcast_uuid = "p1";
  title = "";
  url = "";
  published = none;
  modified_at = pos 20;
  is_deleted = false;
}

abbrev older : History
older = record heard { modified_at = pos 30 }

upsert_history-find_example :
    find 1 "e1" (upsert_history (find 1 "e1" (older ∷ [])) heard (older ∷ [])) ≡ (
      if at 1 "e1" heard
      then some (later_row (find 1 "e1" (older ∷ [])) heard)
      else find 1 "e1" (older ∷ []))
upsert_history-find_example = upsert_history-find heard (older ∷ []) 1 "e1"

abbrev position : UpdateEpisodeRequest
position = record {
  uuid = "e1";
  podcast = "";
  position = some (pos 61);
  status = pos 0;
  duration = pos 0;
}

absent : find 1 "e9" (stored_episode ∷ []) ≡ none
unfolding find
absent = refl

update_episode_writes_example :
    (r : UserEpisode) × Updated
      (next_token (pos 1000) (pos 500))
      position
      (or_else (find 1 "e1" (stored_episode ∷ [])) (new_episode 1 "e1"))
      r
    × (update_episode env clock 1 position db ≡ (
      ok (tt, []),
      record db {
        episodes = put r (stored_episode ∷ []);
        users = update_user 1 (with_token (next_token (pos 1000) (pos 500))) (alice ∷ []);
      },
    ))
unfolding find
update_episode_writes_example =
    update_episode_writes env clock 1 position db alice alice_found refl refl refl refl

abbrev unknown : UpdateEpisodeRequest
unknown = record position { uuid = "e9" }

update_episode_skips_example : update_episode env clock 1 unknown db ≡ (ok (tt, []), db)
update_episode_skips_example =
    update_episode_skips env clock 1 unknown db alice alice_found refl refl absent refl

abbrev star_unknown : UpdateEpisodeStarRequest
star_unknown = record { uuid = "e9"; podcast = ""; star = true }

update_episode_star_fails_example : update_episode_star env clock 1 star_unknown db ≡ (
  err (
      E (
        Arg.op "syncsvc/Engine.UpdateEpisodeStar"
        ∷ Arg.kind database
        ∷ Arg.cause (native (invalid_uuid ""))
        ∷ [])),
  db,
)
update_episode_star_fails_example =
    update_episode_star_fails env clock 1 star_unknown db alice alice_found refl refl refl absent
      refl
