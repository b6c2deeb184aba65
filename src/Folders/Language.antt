-- ===== src/Folders/Language.antt =====
-- handlers/folders.go: supportedFolderLanguage and localizedOther.
use Prim.Native.Char.{code}
use Prim.Native.String.{◌++◌}
use podcast_backend.Prelude.{
  String, ◌&&◌, ◌||◌, Option, none, some, List, [], ◌∷◌, ◌==◌, str_eq, or_else, if◌then◌else◌,
}
use podcast_backend.Moderation.{trim_space}
use podcast_backend.Folders.{value_of}

-- strings.ReplaceAll(s, "_", "-")
unfoldable pub dashed : String → String
dashed String.[] = ""
dashed (String.◌∷◌ c s) = if code c == b'_' then "-" ++ dashed s else String.◌∷◌ c (dashed s)

-- strings.Split(s, "-"): its first part, and its second if there is one.
unfoldable pub first_part : String → String
first_part String.[] = ""
first_part (String.◌∷◌ c s) = if code c == b'-' then "" else String.◌∷◌ c (first_part s)

unfoldable pub second_part : String → Option String
unfolding first_part
second_part String.[] = none
second_part (String.◌∷◌ c s) = if code c == b'-' then some (first_part s) else second_part s

abbrev pub supported_languages : List String
supported_languages =
    "ca" ∷ "de" ∷ "en" ∷ "es" ∷ "fr" ∷ "it" ∷ "ja" ∷ "nl" ∷ "pt-BR" ∷ "ru" ∷ "sv" ∷ []

module _ (to_lower to_upper : String → String) where
  unfoldable pub among : String → List String → String
  unfolding first_part
  among base [] = "en"
  among base (l ∷ ls) = if str_eq base (to_lower (first_part l)) then l else among base ls

  unfoldable pub supported_folder_language : String → String
  unfolding dashed first_part second_part among
  supported_folder_language input =
      let value = dashed (trim_space input) in
      let base = to_lower (first_part value) in
      elim (second_part value) [
        | none ↦ among base supported_languages
        | some part ↦
            let script = to_lower part in
            let candidate = (base ++ "-") ++ to_upper part in
            if str_eq base "zh" && str_eq script "hans"
            then "zh-Hans"
            else if str_eq base "zh" && str_eq script "hant"
            then "zh-Hant"
            else if (str_eq base "es" || str_eq base "fr")
                && (str_eq candidate "es-MX" || str_eq candidate "fr-CA")
            then candidate
            else among base supported_languages
      ]

abbrev pub translated : List (String × String)
translated =
    ("ca", "Altres")
    ∷ ("de", "Andere")
    ∷ ("es", "Otros")
    ∷ ("fr", "Autres")
    ∷ ("it", "Altro")
    ∷ ("ja", "その他")
    ∷ ("nl", "Overig")
    ∷ ("pt", "Outros")
    ∷ ("ru", "Другое")
    ∷ ("sv", "Övrigt")
    ∷ ("zh", "其他")
    ∷ []

unfoldable pub localized_other : String → String
unfolding first_part value_of
localized_other language = or_else (value_of (first_part language) translated) "Other"
