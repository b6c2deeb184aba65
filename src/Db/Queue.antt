-- ===== src/Db/Queue.antt =====
-- db/queries.sql: the statements on the Up Next queue, the listening history and the settings.
pub mod Latest
pub mod Cap
use podcast_backend.Prelude.{
  ℕ, ℤ, ltb, ltb_ℤ, leb_ℤ, String, Bool, true, false, ◌&&◌, ◌||◌, not, Option, none, some, List, [],
  ◌∷◌, ◌==◌, str_eq, map, select, take, sort_by, if◌then◌else◌,
}
use podcast_backend.Errs.{native, unique_violation}
use podcast_backend.Db.Table.{find, put}
use podcast_backend.Db.Rows.{
  UpNextItem, History, UserSettings, up_next_key, history_key, settings_key,
}
use podcast_backend.Db.Tx.{
  Tx, read, write, one, fail, uuid_param, no_nul, text_checked, ◌>>=◌, ◌>>◌,
}

-- ORDER BY position
abbrev pub by_position : UpNextItem → UpNextItem → Bool
by_position a b = ltb a.position b.position

unfoldable pub user_queue : ℕ → List UpNextItem → List UpNextItem
user_queue user rows = sort_by by_position (select (λ r. r.user_id == user) rows)

unfoldable pub get_up_next_items : ℕ → Tx (List UpNextItem)
unfolding user_queue
get_up_next_items user = read λ db. user_queue user db.up_next

unfoldable pub delete_all_up_next_items : ℕ → Tx Unit
delete_all_up_next_items user =
    write λ db. record db { up_next = select (λ r. not (r.user_id == user)) db.up_next }

abbrev pub insert_row : Option UpNextItem → UpNextItem → Tx Unit
insert_row none item = write λ db. record db { up_next = item ∷ db.up_next }
insert_row (some old) item = fail (native unique_violation)

abbrev pub fine_texts : UpNextItem → Bool
fine_texts item = no_nul item.podcast_uuid && (no_nul item.title && no_nul item.url)

-- InsertUpNextItem, which has no ON CONFLICT: the primary key refuses a second row.
unfoldable pub insert_up_next_item : (String → Bool) → UpNextItem → Tx Unit
unfolding no_nul
insert_up_next_item is_uuid item = do
  uuid_param is_uuid item.episode_uuid
  text_checked (fine_texts item)
  old ← read (λ db. find item.user_id item.episode_uuid db.up_next)
  insert_row old item

-- ON CONFLICT … WHERE EXCLUDED.modified_at > history.modified_at
unfoldable pub upsert_history : Option History → History → List History → List History
upsert_history none h rows = put h rows
upsert_history (some old) h rows = if ltb_ℤ old.modified_at h.modified_at then put h rows else rows

unfoldable pub upsert_history_item : (String → Bool) → History → Tx Unit
unfolding upsert_history
upsert_history_item is_uuid h = do
  uuid_param is_uuid h.episode_uuid
  write λ db. record db {
    history = upsert_history (find h.user_id h.episode_uuid db.history) h db.history;
  }

-- A tombstone keeps the other columns of a stored row, and has their defaults in a new one.
unfoldable pub tombstone : ℕ → String → ℤ → Option History → List History → List History
tombstone user uuid t none rows =
    put
      (record {
        user_id = user;
        episode_uuid = uuid;
        podcast_uuid = "";
        title = "";
        url = "";
        published = none;
        modified_at = t;
        is_deleted = true;
      })
      rows
tombstone user uuid t (some old) rows =
    if ltb_ℤ old.modified_at t
    then put (record old { modified_at = t; is_deleted = true }) rows
    else rows

unfoldable pub tombstone_history_item : (String → Bool) → ℕ → String → ℤ → Tx Unit
unfolding tombstone
tombstone_history_item is_uuid user uuid t = do
  uuid_param is_uuid uuid
  write λ db. record db { history = tombstone user uuid t (find user uuid db.history) db.history }

unfoldable pub delete_history_before : ℕ → ℤ → Tx Unit
delete_history_before user t = write λ db. record db {
  history = select (λ r. not (r.user_id == user && leb_ℤ r.modified_at t)) db.history;
}

-- ORDER BY modified_at DESC
abbrev pub newest_first : History → History → Bool
newest_first a b = ltb_ℤ b.modified_at a.modified_at

unfoldable pub newest : ℕ → ℕ → List History → List History
newest user limit rows = take limit (sort_by newest_first (select (λ r. r.user_id == user) rows))

unfoldable pub has_uuid : String → List String → Bool
has_uuid u [] = false
has_uuid u (v ∷ vs) = str_eq v u || has_uuid u vs

abbrev pub uuids : List History → List String
uuids = map λ r. r.episode_uuid

unfoldable pub trim : ℕ → ℕ → List History → List History
unfolding newest has_uuid
trim user limit rows =
    select
      (λ r. not (r.user_id == user) || has_uuid r.episode_uuid (uuids (newest user limit rows)))
      rows

unfoldable pub trim_history : ℕ → ℕ → Tx Unit
unfolding trim
trim_history user limit = write λ db. record db { history = trim user limit db.history }

unfoldable pub get_history : ℕ → ℕ → Tx (List History)
unfolding newest
get_history user limit = read λ db. newest user limit db.history

unfoldable pub get_user_settings : ℕ → Tx UserSettings
get_user_settings user = do found ← read (λ db. find user "" db.settings); one found

unfoldable pub upsert_user_settings : UserSettings → Tx Unit
upsert_user_settings row = write λ db. record db { settings = put row db.settings }
