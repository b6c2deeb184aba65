-- ===== src/Tests/Texts.antt =====
-- The text checks, on test data.
use podcast_backend.Prelude.{none, some, [], ◌∷◌, ◌≡◌, ◌↔◌, refl}
use podcast_backend.Moderation.{
  Filter, check_display_name, check_text, trim_space, is_space, rune_count, has_bad_rune,
  has_line_break, has_blocked, is_control, is_dangerous_format_rune, contains, has_prefix, blocked,
  empty,
}
use podcast_backend.Moderation.Accepts.{FitName, check_display_name-FitName}

abbrev filter : Filter
filter = record { to_lower = λ s. s; blocklist = "spam" ∷ [] }

runs :
    (check_display_name filter " Ann " ≡ none)
    × (check_display_name filter "some spam here" ≡ some blocked)
    × (check_display_name filter "   " ≡ some empty)
unfolding check_display_name check_text trim_space is_space rune_count has_bad_rune has_line_break
    has_blocked is_control is_dangerous_format_rune contains has_prefix
runs = (refl, refl, refl)

check_display_name-FitName_example :
    (check_display_name filter " Ann " ≡ none) ↔ FitName filter (trim_space " Ann ")
check_display_name-FitName_example = check_display_name-FitName filter " Ann "
