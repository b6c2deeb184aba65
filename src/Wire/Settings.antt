-- ===== src/Wire/Settings.antt =====
-- Api_ChangeableSettings, Api_PodcastSettings and Api_NamedSettings: messages that the code walks
-- field by field through protoreflect.
use podcast_backend.Prelude.{ℤ, String, Bool, Option, List}
use podcast_backend.Wire.{Instant, Double}

-- BoolSetting, Int32Setting, DoubleSetting, StringSetting.
pub data SettingKind : Type 0 where
  bool_setting int32_setting double_setting string_setting : SettingKind

pub data Value : Type 0 where
  bool : Bool → Value
  int32 : ℤ → Value
  double : Double → Value
  string : String → Value

pub record Setting : Type 0 where
  pub kind : SettingKind
  pub value : Option Value
  pub changed : Option Bool
  pub modified_at : Option Instant

-- A message of settings, read by field name; none is a field that is not populated.
abbrev pub Settings : Type 0
Settings = String → Option Setting

-- NamedSettings: bare wrapper values.
abbrev pub NamedSettings : Type 0
NamedSettings = String → Option Value

-- A message descriptor: the fields in order, each with the setting message it holds.
abbrev pub Descriptor : Type 0
Descriptor = List (String × SettingKind)
