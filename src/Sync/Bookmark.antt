-- ===== src/Sync/Bookmark.antt =====
-- syncsvc/engine.go, applyBookmarkRecord: stamped title and deletion, the highlight window, the
-- tag set; podcast, episode, time and creation time are those of the first record.
pub mod Laws
pub mod Writes
use podcast_backend.Prelude.{
  ℕ, ℤ, pos, eq_ℤ, String, Bool, true, false, ◌&&◌, not, Option, none, some, List, [], str_eq,
  or_else, if◌then◌else◌,
}
use podcast_backend.Wire.{Instant, Double}
use podcast_backend.Wire.Sync.{SyncUserBookmark}
use podcast_backend.Db.Rows.{Bookmark}
use podcast_backend.Db.Tx.{Tx, pure, now, or_no_rows, ◌>>=◌, ◌>>◌}
use podcast_backend.Db.Library.{get_bookmark, upsert_bookmark}
use podcast_backend.Sync.Env.{Env}
use podcast_backend.Sync.Episode.{newer, newer_stamp, modified_after, present}

-- The row where none is stored; the columns that the literal leaves out are zero.
abbrev pub new_bookmark : ℕ → Instant → SyncUserBookmark → Bookmark
new_bookmark user created rec = record {
  user_id = user;
  bookmark_uuid = rec.bookmark_uuid;
  podcast_uuid = rec.podcast_uuid;
  episode_uuid = rec.episode_uuid;
  time_secs = or_else rec.time (pos 0);
  title = "";
  title_modified = pos 0;
  created_at = created;
  is_deleted = false;
  is_deleted_modified = pos 0;
  modified_at = pos 0;
  excerpt = "";
  end_time_secs = 0;
  trim_modified = pos 0;
  tags = [];
  tags_modified = pos 0;
}

-- A user trim: the window and its stamp together.
abbrev pub trim : SyncUserBookmark → Bookmark → Bookmark
trim rec b = record b {
  excerpt = or_else rec.excerpt "";
  end_time_secs = or_else rec.end_time 0;
  trim_modified = or_else rec.trim_modified (pos 0);
}

-- Machine enrichment: the window alone.
abbrev pub fill_in : SyncUserBookmark → Bookmark → Bookmark
fill_in rec b = record b {
  excerpt = or_else rec.excerpt "";
  end_time_secs = or_else rec.end_time 0;
}

abbrev fills : SyncUserBookmark → Bookmark → Bool
fills rec b =
    not (present rec.trim_modified)
    && (eq_ℤ b.trim_modified (pos 0)
        && (str_eq b.excerpt "" && not (str_eq (or_else rec.excerpt "") "")))

unfoldable pub window_step : SyncUserBookmark → Bookmark → Bookmark
window_step rec b =
    if present rec.trim_modified && modified_after rec.trim_modified b.trim_modified
    then trim rec b
    else if fills rec b
    then fill_in rec b
    else b

-- The stamped fields; the tags replace as a whole.
unfoldable pub stamped_step : SyncUserBookmark → Bookmark → Bookmark
stamped_step rec b = record b {
  title = newer rec.title rec.title_modified b.title b.title_modified;
  title_modified = newer_stamp rec.title rec.title_modified b.title_modified;
  is_deleted = newer rec.is_deleted rec.is_deleted_modified b.is_deleted b.is_deleted_modified;
  is_deleted_modified = newer_stamp rec.is_deleted rec.is_deleted_modified b.is_deleted_modified;
  tags = newer (some rec.tags) rec.tags_modified b.tags b.tags_modified;
  tags_modified = newer_stamp (some rec.tags) rec.tags_modified b.tags_modified;
}

unfoldable pub merge_bookmark : ℤ → SyncUserBookmark → Bookmark → Bookmark
unfolding stamped_step window_step
merge_bookmark token rec b = window_step rec (stamped_step rec (record b { modified_at = token }))

module _ (env : Env) (clock : ℕ → ℤ) where
  -- time.Now().UTC(), to the millisecond.
  created : Option Instant → Tx Instant
  created (some t) = pure t
  created none = do ms ← now clock; pure (record { millis = ms; nanos = 0 })

  -- timestampOrNow is called only where the row is new.
  stored_or_new : ℕ → SyncUserBookmark → Option Bookmark → Tx Bookmark
  unfolding created
  stored_or_new user rec (some b) = pure b
  stored_or_new user rec none = do at ← created rec.created_at; pure (new_bookmark user at rec)

  unfoldable pub apply_bookmark_record : ℕ → ℤ → SyncUserBookmark → Tx Unit
  unfolding get_bookmark upsert_bookmark stored_or_new merge_bookmark
  apply_bookmark_record user token rec = if str_eq rec.bookmark_uuid "" then pure tt else do
    found ← or_no_rows (get_bookmark env.is_uuid user rec.bookmark_uuid)
    existing ← stored_or_new user rec found
    upsert_bookmark env.is_uuid (merge_bookmark token rec existing)
