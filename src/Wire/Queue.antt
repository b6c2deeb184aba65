-- ===== src/Wire/Queue.antt =====
-- The messages of up_next/sync and history/sync.
use podcast_backend.Prelude.{ℤ, String, Bool, Option, List}
use podcast_backend.Wire.{Instant}

pub record UpNextEpisodeRequest : Type 0 where
  pub uuid : String
  pub title : String
  pub url : String
  pub podcast : String
  pub published : Option Instant

pub record UpNextChange : Type 0 where
  pub uuid : String
  pub action : ℤ
  pub modified : ℤ
  pub title : String
  pub url : String
  pub podcast : String
  pub episodes : List UpNextEpisodeRequest
  pub published : Option Instant

-- `changes` is none where the request carries no up_next message.
pub record UpNextSyncRequest : Type 0 where
  pub changes : Option (List UpNextChange)
  pub show_play_status : Bool

pub record UpNextEpisode : Type 0 where
  pub title : String
  pub url : String
  pub podcast : String
  pub uuid : String
  pub published : Option Instant

pub record UpNextEpisodeSync : Type 0 where
  pub uuid : String
  pub played_up_to : ℤ
  pub duration : ℤ

pub record UpNextResponse : Type 0 where
  pub server_modified : ℤ
  pub episodes : List UpNextEpisode
  pub episode_sync : List UpNextEpisodeSync

pub record HistoryChange : Type 0 where
  pub action : ℤ
  pub podcast : String
  pub episode : String
  pub modified_at : ℤ
  pub title : String
  pub url : String
  pub published : Option Instant

pub record HistoryResponse : Type 0 where
  pub server_modified : ℤ
  pub last_cleared : ℤ
  pub changes : List HistoryChange
