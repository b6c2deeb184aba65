-- ===== src/Sync/Settings.antt =====
-- syncsvc/settings.go: settings messages, merged key by key. protoreflect's Range visits the
-- populated fields; here it walks the descriptor and passes over what is not populated. Every field
-- of these messages is a message, so Kind() is MessageKind at each.
pub mod Merge
pub mod Resent
use podcast_backend.Prelude.{
  ℕ, ℤ, pos, leb_ℤ, ◌≤ℤ◌, String, Bool, true, false, ◌||◌, ◌&&◌, Option, none, some, List, [], ◌∷◌,
  str_eq, or_else, if◌then◌else◌,
}
use podcast_backend.Errs.{Result, ok, err, E, Arg, native, invalid_json, internal}
use podcast_backend.Wire.{Instant}
use podcast_backend.Wire.Settings.{
  Settings, NamedSettings, Descriptor, Setting, SettingKind, bool_setting, int32_setting,
  double_setting, string_setting, Value, bool, int32, double, string,
}
use podcast_backend.Sync.Env.{Env, Codec}
use podcast_backend.Sync.Convert.{is_blank, no_settings, timestamp_from_millis}

-- settingModifiedAt: 0 without a stamp.
abbrev pub stamp_millis : Option Instant → ℤ
stamp_millis none = pos 0
stamp_millis (some t) = t.millis

abbrev pub setting_modified_at : Setting → ℤ
setting_modified_at x = stamp_millis x.modified_at

-- storedRef.Set(fd, …)
abbrev pub set_setting : String → Setting → Settings → Settings
set_setting name v m key = if str_eq key name then some v else m key

-- `storedRef.Has(fd)` and an incoming stamp that is not later: the stored side stays.
abbrev pub stored_wins : Option Setting → Setting → Bool
stored_wins none v = false
stored_wins (some existing) v = leb_ℤ (setting_modified_at v) (setting_modified_at existing)

unfoldable pub merge_field : String → Option Setting → Settings × Bool → Settings × Bool
merge_field name none (stored, changed) = (stored, changed)
merge_field name (some v) (stored, changed) =
    if stored_wins (stored name) v then (stored, changed) else (set_setting name v stored, true)

unfoldable pub merge_fields : Descriptor → Settings → Settings × Bool → Settings × Bool
unfolding merge_field
merge_fields [] incoming acc = acc
merge_fields ((name, _) ∷ fields) incoming acc =
    merge_fields fields incoming (merge_field name (incoming name) acc)

-- The message of the kind that wraps a bare value.
abbrev pub kind_of : Value → SettingKind
kind_of (bool b) = bool_setting
kind_of (int32 n) = int32_setting
kind_of (double d) = double_setting
kind_of (string s) = string_setting

same_kind : SettingKind → SettingKind → Bool
same_kind bool_setting bool_setting = true
same_kind int32_setting int32_setting = true
same_kind double_setting double_setting = true
same_kind string_setting string_setting = true
same_kind _ _ = false

-- Fields().ByName
unfoldable pub field_kind : String → Descriptor → Option SettingKind
field_kind name [] = none
field_kind name ((n, k) ∷ fields) = if str_eq n name then some k else field_kind name fields

legacy_setting : Value → ℤ → Setting
legacy_setting v now_ms = record {
  kind = kind_of v;
  value = some v;
  changed = some true;
  modified_at = some (timestamp_from_millis now_ms);
}

-- The target field exists and holds the message that wraps this value.
abbrev accepts : Option SettingKind → Value → Bool
accepts none v = false
accepts (some k) v = same_kind (kind_of v) k

legacy_field : Descriptor → String → Option Value → ℤ → Settings × Bool → Settings × Bool
unfolding field_kind legacy_setting same_kind
legacy_field target name none now_ms acc = acc
legacy_field target name (some v) now_ms (stored, changed) =
    if accepts (field_kind name target) v
    then (set_setting name (legacy_setting v now_ms) stored, true)
    else (stored, changed)

unfoldable pub legacy_fields :
    Descriptor → Descriptor → NamedSettings → ℤ → Settings × Bool → Settings × Bool
unfolding legacy_field
legacy_fields target [] legacy now_ms acc = acc
legacy_fields target ((name, _) ∷ fields) legacy now_ms acc =
    legacy_fields target fields legacy now_ms (legacy_field target name (legacy name) now_ms acc)

response_field : Option SettingKind → SettingKind → Option Setting → Option Setting
unfolding same_kind
response_field none k v = none
response_field (some k') k v = if same_kind k' k then v else none

module _ (env : Env) where
  -- decodeStoredSettings
  unfoldable pub decode_stored_settings : String → Result Settings
  decode_stored_settings raw =
      if is_blank raw then ok no_settings else elim (env.changeable_json.unmarshal raw) [
        | none ↦ err (
            E (
              Arg.op "syncsvc/decodeStoredSettings"
              ∷ Arg.kind internal
              ∷ Arg.cause (native invalid_json)
              ∷ []))
        | some m ↦ ok m
      ]

  unfoldable pub encode_stored_settings : Settings → Result String
  encode_stored_settings m = elim (env.changeable_json.marshal m) [
    | none ↦ err (
        E (
          Arg.op "syncsvc/encodeStoredSettings"
          ∷ Arg.kind internal
          ∷ Arg.cause (native invalid_json)
          ∷ []))
    | some raw ↦ ok raw
  ]

  -- MergeChangedSettings: the merged message, and whether anything changed.
  unfoldable pub merge_changed_settings : Settings → Option Settings → Settings × Bool
  unfolding merge_fields
  merge_changed_settings stored none = (stored, false)
  merge_changed_settings stored (some incoming) =
      merge_fields env.changeable incoming (stored, false)

  -- ApplyLegacySettings
  unfoldable pub apply_legacy_settings : Settings → Option NamedSettings → ℤ → Settings × Bool
  unfolding legacy_fields
  apply_legacy_settings stored none now_ms = (stored, false)
  apply_legacy_settings stored (some legacy) now_ms =
      legacy_fields env.changeable env.named legacy now_ms (stored, false)

  -- BuildNamedSettingsResponse: what the server has stored, field by field.
  unfoldable pub build_named_settings_response : Settings → Settings
  unfolding field_kind response_field
  build_named_settings_response stored name = elim (field_kind name env.changeable) [
    | none ↦ none
    | some k ↦ response_field (field_kind name env.named_response) k (stored name)
  ]

  podcast_settings_error : Result String
  podcast_settings_error = err (
      E (
        Arg.op "syncsvc/MergePodcastSettings"
        ∷ Arg.kind internal
        ∷ Arg.cause (native invalid_json)
        ∷ []))

  abbrev stored_podcast_settings : String → Option Settings
  stored_podcast_settings raw =
      if is_blank raw then some no_settings else env.podcast_json.unmarshal raw

  abbrev marshal_podcast_settings : Settings → Result String
  unfolding podcast_settings_error
  marshal_podcast_settings m = elim (env.podcast_json.marshal m) [
    | none ↦ podcast_settings_error
    | some raw ↦ ok raw
  ]

  -- MergePodcastSettings; its one caller passes a message that is not nil.
  unfoldable pub merge_podcast_settings : String → Settings → Result String
  unfolding merge_fields podcast_settings_error
  merge_podcast_settings raw incoming = elim (stored_podcast_settings raw) [
    | none ↦ podcast_settings_error
    | some stored ↦
        marshal_podcast_settings (merge_fields env.podcast_fields incoming (stored, false)).0
  ]
