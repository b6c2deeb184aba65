-- ===== src/Tests/Laws.antt =====
-- The merges and the errors, on test data.
use podcast_backend.Prelude.{
  pos, String, true, false, ◌++◌, none, some, [], ◌∷◌, str_eq, ◌≡◌, refl, inl, if◌then◌else◌,
}
use podcast_backend.Errs.{native, wrapped, no_rows, invalid_json, database, op_stack, Native}
use podcast_backend.Errs.Http.{http_error_response}
use podcast_backend.Errs.Chain.{server_fault_masked, op_stack-wrapped}
use podcast_backend.Wire.Settings.{Settings, Setting, int32_setting, int32}
use podcast_backend.Wire.Sync.{SyncUserEpisode, SyncUserBookmark}
use podcast_backend.Db.Rows.{Bookmark}
use podcast_backend.Sync.Bookmark.{merge_bookmark, new_bookmark}
use podcast_backend.Sync.Bookmark.Laws.{SameBookmark, merge_bookmark-fixed, enrichment_keeps_window}
use podcast_backend.Sync.Settings.{merge_fields, merge_changed_settings}
use podcast_backend.Sync.Settings.Resent.{merge_changed_settings-again}
use podcast_backend.Sync.Settings.Merge.{winner, listed, merge_fields-winner}
use podcast_backend.Tests.Data.{env, fields, played}

abbrev text : Native → String
text n = "boom"

server_fault_masked_example :
    (http_error_response text (wrapped "a" database "p" "c" "r" (native no_rows))
      ≡ http_error_response text (wrapped "b" database "q" "d" "s" (native invalid_json)))
    × ((http_error_response text (wrapped "a" database "p" "c" "r" (native no_rows))).status ≡ 500)
server_fault_masked_example =
    server_fault_masked text text database "a" "b" "p" "q" "c" "d" "r" "s" (native no_rows)
      (native invalid_json) (inl refl)

op_stack-wrapped_example :
    op_stack
      (wrapped "outer" database "" "" "" (wrapped "inner" database "" "" "" (native no_rows)))
    ≡ op_stack (wrapped "inner" database "" "" "" (native no_rows))
      ++ (if str_eq "outer" "" then [] else "outer" ∷ [])
op_stack-wrapped_example =
    op_stack-wrapped "outer" database "" "" "" (wrapped "inner" database "" "" "" (native no_rows))

abbrev starred : SyncUserEpisode
starred = record played {
  playing_status = none;
  playing_status_modified = none;
  played_up_to = none;
  played_up_to_modified = none;
  starred = some true;
  starred_modified = some (pos 901);
}

abbrev dark : Setting
dark = record {
  kind = int32_setting;
  value = some (int32 (pos 1));
  changed = none;
  modified_at = some (record { millis = pos 9; nanos = 0 });
}

abbrev incoming : Settings
incoming name = if str_eq name "theme" then some dark else none

abbrev nothing : Settings
nothing name = none

merge_fields-winner_example : (merge_fields fields incoming (nothing, false)).0 "theme" ≡ (
    if listed "theme" fields then winner (nothing "theme") (incoming "theme") else nothing "theme")
merge_fields-winner_example = merge_fields-winner incoming fields nothing false "theme"

merge_changed_settings-again_example :
    merge_changed_settings env
      (merge_changed_settings env nothing (some incoming)).0
      (some incoming)
    ≡ ((merge_changed_settings env nothing (some incoming)).0, false)
merge_changed_settings-again_example = merge_changed_settings-again env nothing (some incoming)

abbrev enrichment : SyncUserBookmark
enrichment = record {
  bookmark_uuid = "b1";
  podcast_uuid = "p1";
  episode_uuid = "e1";
  created_at = none;
  time = some (pos 30);
  title = none;
  title_modified = none;
  is_deleted = none;
  is_deleted_modified = none;
  excerpt = some "a machine's words";
  end_time = some 7;
  trim_modified = none;
  tags = [];
  tags_modified = none;
}

abbrev trimmed : Bookmark
trimmed = record (new_bookmark 1 (record { millis = pos 1; nanos = 0 }) enrichment) {
  excerpt = "the user's words";
  trim_modified = pos 800;
}

merge_bookmark-fixed_example :
    SameBookmark (merge_bookmark (pos 1000) enrichment trimmed) trimmed
    × ((merge_bookmark (pos 1000) enrichment trimmed).modified_at ≡ pos 1000)
merge_bookmark-fixed_example = merge_bookmark-fixed (pos 1000) enrichment trimmed

enrichment_keeps_window_example :
    ((merge_bookmark (pos 1000) enrichment trimmed).excerpt ≡ "the user's words")
    × ((merge_bookmark (pos 1000) enrichment trimmed).end_time_secs ≡ 0)
    × ((merge_bookmark (pos 1000) enrichment trimmed).trim_modified ≡ pos 800)
enrichment_keeps_window_example = enrichment_keeps_window (pos 1000) enrichment trimmed refl refl
