-- ===== src/Tests/Data.antt =====
-- Test data: an environment, a clock, a database with one user.
use podcast_backend.Prelude.{ℕ, ℤ, pos, false, not, none, some, [], ◌∷◌, str_eq}
use podcast_backend.Wire.Settings.{Descriptor, bool_setting, int32_setting}
use podcast_backend.Wire.Sync.{SyncUserEpisode, SyncUpdateRequest, episode}
use podcast_backend.Db.Rows.{User, UserEpisode}
use podcast_backend.Db.Tx.{Db}
use podcast_backend.Sync.Env.{Env, Codec}
use podcast_backend.Sync.Episode.{new_episode}

-- A codec that reads nothing.
abbrev no_codec : {M : Type 0} → Codec M
no_codec = record { marshal = λ m. some "{}"; unmarshal = λ raw. none }

abbrev pub fields : Descriptor
fields = ("theme", int32_setting) ∷ ("autoplay", bool_setting) ∷ []

-- Every text but the empty one passes for a uuid.
abbrev pub env : Env
env = record {
  is_uuid = λ u. not (str_eq u "");
  canonical_feed_url = λ u. u;
  changeable = fields;
  named = fields;
  named_response = fields;
  podcast_fields = fields;
  changeable_json = no_codec;
  podcast_json = no_codec;
  episode_json = no_codec;
  array_json = no_codec;
}

abbrev pub clock : ℕ → ℤ
clock i = pos 1000

abbrev pub alice : User
alice = record {
  id = 1;
  deleted = false;
  sync_last_modified = pos 500;
  up_next_modified = pos 400;
  history_modified = pos 300;
  history_cleared_at_ms = pos 0;
}

abbrev pub stored_episode : UserEpisode
stored_episode = record (new_episode 1 "e1") { podcast_uuid = "p1"; modified_at = pos 450 }

abbrev pub db : Db
db = record {
  users = alice ∷ [];
  catalog = [];
  podcasts = [];
  episodes = stored_episode ∷ [];
  folders = [];
  playlists = [];
  bookmarks = [];
  devices = [];
  up_next = [];
  history = [];
  milestones = [];
  settings = [];
}

abbrev pub played : SyncUserEpisode
played = record {
  uuid = "e1";
  podcast_uuid = "p1";
  is_deleted = none;
  is_deleted_modified = none;
  duration = none;
  duration_modified = none;
  playing_status = some (pos 2);
  playing_status_modified = some (pos 900);
  played_up_to = some (pos 60);
  played_up_to_modified = some (pos 900);
  starred = none;
  starred_modified = none;
  deselected_chapters = "";
  deselected_chapters_modified = none;
}

abbrev pub request : SyncUpdateRequest
request = record { last_modified = pos 500; records = episode played ∷ [] }
