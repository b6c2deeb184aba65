-- ===== src/Tests/Library.antt =====
-- The list endpoints, on test data.
use podcast_backend.Prelude.{true, map, ◌≡◌, refl}
use podcast_backend.Errs.{ok}
use podcast_backend.Db.Table.{find}
use podcast_backend.Db.Rows.{podcast_key}
use podcast_backend.Sync.Library.{episode_response, episodes_response, podcast_episodes}
use podcast_backend.Sync.Library.Joined.{bookmarks_of, episodes_of, podcast_episodes-joined}
use podcast_backend.Tests.Data.{env, db}

podcast_episodes-joined_example :
    podcast_episodes env 1 (record { uuid = "p1"; include_bookmarks = true }) db
    ≡ ok (
        episodes_response
          (map (episode_response (bookmarks_of 1 db)) (episodes_of 1 db "p1"))
          (find 1 "p1" db.podcasts))
podcast_episodes-joined_example = podcast_episodes-joined 1 db env "p1" refl refl
