-- ===== src/Tests/Settings.antt =====
-- A file of settings:
--   a=1
--   [S]
--   a=2;x
--   #
use epoll_based_fault_diagno.Base.{
  ◌+◌, ◌≡◌, refl, arith, false, List, [], ◌∷◌, ◌++◌, map, Bytes, some, length,
}
use epoll_based_fault_diagno.Text.{blank, same}
use epoll_based_fault_diagno.Text.Trim.{Trimmed, Without}
use epoll_based_fault_diagno.Config.{
  Parser, parse_text, join_lines, get_value, value_of, syntax_error, default_section,
}
use epoll_based_fault_diagno.Config.Lookup.{or_else}
use epoll_based_fault_diagno.Config.Written.{
  Item, heading, entry, closed_entry, remark, written, IsField, IsKey, IsItem, IsLine, AllItems,
  first_value,
}
use epoll_based_fault_diagno.Config.Meaning.{AllLines, parse_text-get_value}
use epoll_based_fault_diagno.Config.Errors.{IsBad, parse_text-syntax_error}

abbrev pub settings : List Item
settings =
    entry (97 ∷ []) (49 ∷ [])
    ∷ heading (83 ∷ [])
    ∷ closed_entry (97 ∷ []) (50 ∷ []) (120 ∷ [])
    ∷ remark []
    ∷ []

pub settings-AllItems : AllItems settings
unfolding AllItems IsItem IsLine IsKey IsField Trimmed Without written blank
settings-AllItems = ground arith

abbrev pub new_parser : Parser
new_parser = record { content = []; section_name = []; in_section = false; error_line = 0 }

parse_text-get_value_example :
    (q : Parser) × (parse_text (join_lines (map written settings)) new_parser ≡ some (0, q))
    × ((s key : Bytes) → get_value q s key ≡ value_of (first_value default_section settings s key))
parse_text-get_value_example = parse_text-get_value settings new_parser settings-AllItems

-- The value of `a` in section `S`.
settings_mean : first_value default_section settings (83 ∷ []) (97 ∷ []) ≡ some (50 ∷ [])
unfolding first_value or_else same
settings_mean = refl

abbrev pub bad_line : Bytes
bad_line = 120 ∷ []

pub bad_line-IsLine : IsLine bad_line
unfolding IsLine Without
bad_line-IsLine = ((refl, refl), (refl, refl), refl)

pub bad_line-IsBad : IsBad bad_line
unfolding IsBad Without blank
bad_line-IsBad = ground arith

pub no_more : AllLines []
unfolding AllLines
no_more = refl

parse_text-syntax_error_example :
    (q : Parser) × (parse_text (join_lines (map written settings ++ (bad_line ∷ []))) new_parser
      ≡ some (syntax_error, q))
    × (q.error_line ≡ length settings + 1)
    × ((s key : Bytes) → get_value q s key ≡ value_of (first_value default_section settings s key))
parse_text-syntax_error_example =
    parse_text-syntax_error settings bad_line [] new_parser settings-AllItems bad_line-IsLine
      bad_line-IsBad no_more
