-- ===== src/Sync/Podcast.antt =====
-- syncsvc/engine.go, applyPodcastRecord: a subscription record onto the stored row. An absent
-- wrapper field keeps the stored value; a fresh feed URL that the catalog does not know goes to
-- the ingestion callback.
pub mod Writes
use podcast_backend.Prelude.{
  ℕ, ℤ, String, Bool, true, false, ◌&&◌, not, Option, none, some, List, [], ◌∷◌, str_eq, or_else,
  ◌||◌, pos, if◌then◌else◌,
}
use podcast_backend.Errs.{ok}
use podcast_backend.Wire.Settings.{Settings}
use podcast_backend.Wire.Sync.{SyncUserPodcast}
use podcast_backend.Db.Rows.{UserPodcast, Podcast}
use podcast_backend.Db.Tx.{Tx, pure, lift, or_no_rows, ◌>>=◌, ◌>>◌}
use podcast_backend.Db.Users.{get_podcast_by_uuid, get_podcast_by_feed_url}
use podcast_backend.Db.Library.{get_user_podcast, upsert_user_podcast}
use podcast_backend.Sync.Env.{Env}
use podcast_backend.Sync.Settings.{merge_podcast_settings}

-- The parameters where no row is stored. (`notify_enabled` is no parameter of the upsert.)
abbrev pub new_podcast : ℕ → String → UserPodcast
new_podcast user uuid = record {
  user_id = user;
  podcast_uuid = uuid;
  subscribed = true;
  is_deleted = false;
  auto_start_from = none;
  auto_skip_last = none;
  episodes_sort_order = none;
  folder_uuid = none;
  sort_position = none;
  date_added = none;
  settings = "{}";
  modified_at = pos 0;
  notify_enabled = false;
  synced_title = "";
  synced_feed_url = "";
}

-- `if x != nil { params.X = int32Ptr(x) }`
abbrev pub or_keep {ℓ} : {A : Type ℓ} → Option A → Option A → Option A
or_keep none old = old
or_keep (some v) old = some v

abbrev text_or : Option String → String → String
text_or none old = old
text_or (some t) old = if str_eq t "" then old else t

-- `if rec.IsDeleted != nil`: a deletion unsubscribes.
abbrev delete_flag : Option Bool → UserPodcast → UserPodcast
delete_flag none p = p
delete_flag (some true) p = record p { is_deleted = true; subscribed = false }
delete_flag (some false) p = record p { is_deleted = false }

-- The parameters before the feed URL is looked at.
unfoldable pub podcast_flags : ℤ → SyncUserPodcast → UserPodcast → UserPodcast
podcast_flags token rec p =
    let q =
      delete_flag rec.is_deleted
        (record p { subscribed = or_else rec.subscribed p.subscribed; modified_at = token }) in
    record q { synced_title = text_or rec.title q.synced_title }

-- The parameters after it, but for the settings.
unfoldable pub podcast_fields : SyncUserPodcast → UserPodcast → UserPodcast
podcast_fields rec p = record p {
  auto_start_from = or_keep rec.auto_start_from p.auto_start_from;
  auto_skip_last = or_keep rec.auto_skip_last p.auto_skip_last;
  episodes_sort_order = or_keep rec.episodes_sort_order p.episodes_sort_order;
  folder_uuid = or_keep rec.folder_uuid p.folder_uuid;
  sort_position = or_keep rec.sort_position p.sort_position;
  date_added = or_keep rec.date_added p.date_added;
}

-- unknownFeeds[feedURL] = struct{}{}: a set.
abbrev contains : String → List String → Bool
contains x [] = false
contains x (y ∷ ys) = str_eq y x || contains x ys

unfoldable pub add_feed : String → List String → List String
add_feed x xs = if contains x xs then xs else x ∷ xs

-- onUnknownPodcast(canonicalFeedURL)
unfoldable pub on_unknown_podcast : String → Tx Unit
unfolding add_feed
on_unknown_podcast url s = ok (tt, record s { unknown_feeds = add_feed url s.unknown_feeds })

module _ (env : Env) where
  report_url : String → Option Podcast → Tx Unit
  unfolding on_unknown_podcast
  report_url url none = on_unknown_podcast url
  report_url url (some p) = pure tt

  report_unknown : String → Option Podcast → Tx Unit
  unfolding get_podcast_by_feed_url report_url
  report_unknown url none = do
    by_url ← or_no_rows (get_podcast_by_feed_url url)
    report_url url by_url
  report_unknown url (some p) = pure tt

  -- The lookups in the catalog, for a live subscription with a URL.
  ingest : String → String → UserPodcast → Tx Unit
  unfolding get_podcast_by_uuid report_unknown
  ingest uuid url p =
      if p.subscribed && not p.is_deleted
      then (do
        by_uuid ← or_no_rows (get_podcast_by_uuid env.is_uuid uuid)
        report_unknown url by_uuid)
      else pure tt

  -- `if feedURL := …; feedURL != ""`
  feed_step : String → Option String → UserPodcast → Tx UserPodcast
  unfolding ingest
  feed_step uuid none p = pure p
  feed_step uuid (some url) p = if str_eq url "" then pure p else do
    ingest uuid (env.canonical_feed_url url) p
    pure (record p { synced_feed_url = env.canonical_feed_url url })

  settings_step : Option Settings → UserPodcast → Tx UserPodcast
  settings_step none p = pure p
  settings_step (some incoming) p = do
    merged ← lift (merge_podcast_settings env p.settings incoming)
    pure (record p { settings = merged })

  unfoldable pub apply_podcast_record : ℕ → ℤ → SyncUserPodcast → Tx Unit
  unfolding get_user_podcast upsert_user_podcast podcast_flags podcast_fields feed_step
      settings_step
  apply_podcast_record user token rec = if str_eq rec.uuid "" then pure tt else do
    found ← or_no_rows (get_user_podcast env.is_uuid user rec.uuid)
    let start = or_else found (new_podcast user rec.uuid)
    fed ← feed_step rec.uuid rec.feed_url (podcast_flags token rec start)
    params ← settings_step rec.settings (podcast_fields rec fed)
    upsert_user_podcast env.is_uuid params
