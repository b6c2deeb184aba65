-- ===== src/Db/Users.antt =====
-- db/queries.sql: the statements on users and on the crawled catalog.
pub mod Laws
use podcast_backend.Prelude.{
  ℕ, ℤ, String, Bool, ◌&&◌, not, Option, none, some, List, [], ◌∷◌, ◌==◌, str_eq, if◌then◌else◌,
}
use podcast_backend.Db.Rows.{User, Podcast}
use podcast_backend.Db.Tx.{Tx, read, write, one, uuid_param, ◌>>=◌, ◌>>◌}

unfoldable pub find_user : ℕ → List User → Option User
find_user id [] = none
find_user id (u ∷ us) = if u.id == id && not u.deleted then some u else find_user id us

-- GetUserByID; GetUserForUpdate locks the row too, which serialises the requests of one user.
unfoldable pub get_user_for_update : ℕ → Tx User
get_user_for_update id = do found ← read (λ db. find_user id db.users); one found

unfoldable pub get_user_by_id : ℕ → Tx User
get_user_by_id id = do found ← read (λ db. find_user id db.users); one found

-- UPDATE users SET … WHERE id = $1
unfoldable pub update_user : ℕ → (User → User) → List User → List User
update_user id f [] = []
update_user id f (u ∷ us) = (if u.id == id then f u else u) ∷ update_user id f us

unfoldable pub set_user_sync_last_modified : ℕ → ℤ → Tx Unit
set_user_sync_last_modified id t =
    write
      λ db. record db { users = update_user id (λ u. record u { sync_last_modified = t }) db.users }

unfoldable pub set_user_up_next_modified : ℕ → ℤ → Tx Unit
set_user_up_next_modified id t =
    write
      λ db. record db { users = update_user id (λ u. record u { up_next_modified = t }) db.users }

unfoldable pub set_user_history_cleared : ℕ → ℤ → ℤ → Tx Unit
set_user_history_cleared id cleared modified = write λ db. record db {
  users =
      update_user id
        (λ u. record u { history_cleared_at_ms = cleared; history_modified = modified }) db.users;
}

unfoldable pub catalog_by : (Podcast → Bool) → List Podcast → Option Podcast
catalog_by p [] = none
catalog_by p (x ∷ xs) = if p x then some x else catalog_by p xs

unfoldable pub get_podcast_by_uuid : (String → Bool) → String → Tx Podcast
get_podcast_by_uuid is_uuid u = do
  uuid_param is_uuid u
  found ← read (λ db. catalog_by (λ p. str_eq p.uuid u) db.catalog)
  one found

unfoldable pub get_podcast_by_feed_url : String → Tx Podcast
get_podcast_by_feed_url url = do
  found ← read (λ db. catalog_by (λ p. str_eq p.feed_url url) db.catalog)
  one found
