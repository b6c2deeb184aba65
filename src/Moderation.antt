-- ===== src/Moderation.antt =====
-- moderation/textfilter.go: the checks of a text before others see it, and the functions of Go's
-- unicode and strings packages that they and the handlers call. Texts are sequences of code
-- points: protobuf refuses a string field that is not UTF-8, so utf8.ValidString holds. The case
-- table of strings.ToLower is a parameter.
pub mod Accepts
use Prim.Native.Char.{Char, code}
use podcast_backend.Prelude.{
  ℕ, zero, suc, String, Bool, true, false, ◌&&◌, ◌||◌, not, Option, none, some, List, [], ◌∷◌, leb,
  ltb, ◌==◌, str_eq, if◌then◌else◌,
}

-- unicode.IsSpace
unfoldable pub is_space : ℕ → Bool
is_space c =
    (leb 9 c && leb c 13)
    || (c == 32
        || (c == 133
            || (c == 160
                || (c == 5760
                    || ((leb 8192 c && leb c 8202)
                        || (c == 8232
                            || (c == 8233 || (c == 8239 || (c == 8287 || c == 12288)))))))))

-- unicode.IsControl
unfoldable pub is_control : ℕ → Bool
is_control c = ltb c 32 || (leb 127 c && leb c 159)

-- strings.TrimSpace
trim_left : String → String
trim_left String.[] = String.[]
trim_left (String.◌∷◌ c s) = if is_space (code c) then trim_left s else String.◌∷◌ c s

prepend : Bool → Char → String → String
prepend true c String.[] = String.[]
prepend true c (String.◌∷◌ d s) = String.◌∷◌ c (String.◌∷◌ d s)
prepend false c s = String.◌∷◌ c s

trim_right : String → String
unfolding prepend
trim_right String.[] = String.[]
trim_right (String.◌∷◌ c s) = prepend (is_space (code c)) c (trim_right s)

unfoldable pub trim_space : String → String
unfolding trim_left trim_right is_space
trim_space s = trim_right (trim_left s)

-- utf8.RuneCountInString
unfoldable pub rune_count : String → ℕ
rune_count String.[] = 0
rune_count (String.◌∷◌ c s) = suc (rune_count s)

-- string([]rune(s)[:n]) where s is longer.
unfoldable pub truncate_runes : String → ℕ → String
truncate_runes String.[] n = String.[]
truncate_runes (String.◌∷◌ c s) zero = String.[]
truncate_runes (String.◌∷◌ c s) (suc n) = String.◌∷◌ c (truncate_runes s n)

-- strings.HasPrefix, strings.Contains
unfoldable pub has_prefix : String → String → Bool
has_prefix s String.[] = true
has_prefix String.[] (String.◌∷◌ d t) = false
has_prefix (String.◌∷◌ c s) (String.◌∷◌ d t) = (code c == code d) && has_prefix s t

unfoldable pub contains : String → String → Bool
unfolding has_prefix
contains String.[] t = has_prefix String.[] t
contains (String.◌∷◌ c s) t = has_prefix (String.◌∷◌ c s) t || contains s t

-- isDangerousFormatRune
unfoldable pub is_dangerous_format_rune : ℕ → Bool
is_dangerous_format_rune c =
    c == 0xad
    || (c == 0x61c
        || (c == 0x200b
            || ((leb 0x200e c && leb c 0x200f)
                || ((leb 0x202a c && leb c 0x202e)
                    || ((leb 0x2060 c && leb c 0x2064)
                        || ((leb 0x2066 c && leb c 0x2069)
                            || (c == 0xfeff || (leb 0xfff9 c && leb c 0xfffb))))))))

pub data TextError : Type 0 where
  empty too_long bad_runes blocked line_break : TextError

-- The loop of CheckText over the runes: does one of them spoil the text?
unfoldable pub spoils : ℕ → Bool
spoils c = not (c == 10 || (c == 13 || c == 9)) && (is_control c || is_dangerous_format_rune c)

unfoldable pub has_bad_rune : String → Bool
unfolding spoils is_control is_dangerous_format_rune
has_bad_rune String.[] = false
has_bad_rune (String.◌∷◌ c s) = spoils (code c) || has_bad_rune s

-- strings.ContainsAny(s, "\n\r")
unfoldable pub has_line_break : String → Bool
has_line_break String.[] = false
has_line_break (String.◌∷◌ c s) = (code c == 10 || code c == 13) || has_line_break s

-- The loop of CheckText over the blocklist.
unfoldable pub has_blocked : String → List String → Bool
unfolding contains
has_blocked lower [] = false
has_blocked lower (b ∷ bs) = (not (str_eq b "") && contains lower b) || has_blocked lower bs

pub record Filter : Type 0 where
  pub to_lower : String → String
  pub blocklist : List String

module _ (f : Filter) where
  unfoldable pub check_text : String → Option TextError
  unfolding has_bad_rune has_blocked
  check_text s =
      if has_bad_rune s
      then some bad_runes
      else if has_blocked (f.to_lower s) f.blocklist
      then some blocked
      else none

  unfoldable pub check_display_name : String → Option TextError
  unfolding trim_space rune_count has_line_break check_text
  check_display_name s =
      let trimmed = trim_space s in
      if str_eq trimmed ""
      then some empty
      else if ltb 60 (rune_count trimmed)
      then some too_long
      else if has_line_break trimmed
      then some line_break
      else check_text trimmed

  unfoldable pub check_bio : String → Option TextError
  unfolding rune_count check_text
  check_bio s = if ltb 500 (rune_count s) then some too_long else check_text s
