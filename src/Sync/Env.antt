-- ===== src/Sync/Env.antt =====
-- What the engine takes from outside this repository, or from parts of it that are modelled
-- elsewhere: Postgres's reading of a uuid, the protojson and JSON codecs, the protobuf descriptors,
-- and the crawler's canonical form of a feed URL.
use podcast_backend.Prelude.{String, Bool, Option, List}
use podcast_backend.Wire.Settings.{Settings, Descriptor}
use podcast_backend.Wire.Sync.{SyncPlaylistEpisode}

-- protojson.Marshal and Unmarshal at one message type, none where they return an error.
pub record Codec (M : Type 0) : Type 0 where
  pub marshal : M → Option String
  pub unmarshal : String → Option M

pub record Env : Type 0 where
  pub is_uuid : String → Bool
  pub canonical_feed_url : String → String
  pub changeable : Descriptor
  pub named : Descriptor
  pub named_response : Descriptor
  pub podcast_fields : Descriptor
  pub changeable_json : Codec Settings
  pub podcast_json : Codec Settings
  pub episode_json : Codec SyncPlaylistEpisode
  pub array_json : Codec (List String)
