-- ===== src/Wire.antt =====
-- The protobuf messages of the sync endpoints (protos/api.proto, generated as protos/api/api.pb.go).
-- A wrapper such as *wrapperspb.Int64Value is an Option; int32 and int64 are integers; a double is
-- the number that its IEEE bits spell, since no code computes with one.
pub mod Sync
pub mod Queue
pub mod Library
pub mod Settings
use podcast_backend.Prelude.{ℕ, ℤ, ◌<◌}

-- An instant, as time.Time and timestamppb.Timestamp hold it: whole milliseconds since the epoch,
-- and the nanoseconds within the millisecond. The conversions between the two types keep it.
pub record Instant : Type 0 where
  pub millis : ℤ
  pub nanos : ℕ

-- A double, by its bits; all zeros is 0.0.
abbrev pub Double : Type 0
Double = ℕ
