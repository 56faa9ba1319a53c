-- ===== src/Config.antt =====
-- Class CCfgFileParser of audioserver/CCfgFileParser.cpp, which the client has a copy of: sections of
-- keys and values, in a text of lines. The characters that mark a section, a record's end and a
-- comment are the constructor's defaults.
pub mod Lookup
pub mod Written
pub mod Items
pub mod Meaning
pub mod Errors
use epoll_based_fault_diagno.Base.{
  ℕ, suc, ◌+◌, Bool, true, false, List, [], ◌∷◌, ◌++◌, Bytes, Option, none, some, ℤ, length, get_or,
  take, drop, ltb, ◌&&◌, ◌==◌, if◌then◌else◌,
}
use epoll_based_fault_diagno.Text.{strltrim, strrtrim, strchr, same, atol}

abbrev section_b_mark : ℕ
section_b_mark = 91

abbrev section_e_mark : ℕ
section_e_mark = 93

abbrev record_e_mark : ℕ
record_e_mark = 59

abbrev comment_mark : ℕ
comment_mark = 35

abbrev pub syntax_error : ℕ
syntax_error = 256

-- "default"
abbrev pub default_section : Bytes
default_section = 100 ∷ 101 ∷ 102 ∷ 97 ∷ 117 ∷ 108 ∷ 116 ∷ []

-- A std::map, by keys that are strings, is the list of its pairs.
abbrev pub Table {ℓ} : Type ℓ → Type ℓ
Table V = List (Bytes × V)

abbrev pub FileContent : Type 0
FileContent = Table (Table Bytes)

module _ {ℓ} {V : Type ℓ} where
  unfoldable pub find : Table V → Bytes → Option V
  find [] key = none
  find ((k, v) ∷ t) key = let rest = find t key in if same k key then some v else rest

  -- `insert`: a key that is there keeps its value.
  unfoldable pub insert : Table V → Bytes → V → Table V
  insert [] key v = (key, v) ∷ []
  insert ((k, w) ∷ t) key v =
      let rest = insert t key v in if same k key then (k, w) ∷ t else (k, w) ∷ rest

-- The section of a name, made empty where there is none (`m_content[name]`), with `f` done to it.
unfoldable pub at_section : Bytes → (Table Bytes → Table Bytes) → FileContent → FileContent
at_section name f [] = (name, f []) ∷ []
at_section name f ((k, t) ∷ content) =
    let rest = at_section name f content in
    if same k name then (k, f t) ∷ content else (k, t) ∷ rest

-- `m_content`, the name of the section that `pSC` points to, `bInSection` and `m_error_line`.
pub record Parser : Type 0 where
  pub content : FileContent
  pub section_name : Bytes
  pub in_section : Bool
  pub error_line : ℕ

unfoldable pub extract_section : Bytes → Option Bytes
unfolding strchr
extract_section line =
    if get_or line 0 0 == section_b_mark
    then elim (strchr (drop 1 line) section_e_mark) as (λ _. Option Bytes) [
      | none ↦ none
      | some i ↦ some (take i (drop 1 line))
    ]
    else none

-- Where the record ends: at the mark, at a carriage return, or, if there is neither, where `=` is.
unfoldable pub record_end : Bytes → Option ℕ
unfolding strchr
record_end line = elim (strchr line record_e_mark) [
  | some i ↦ some i
  | none ↦ elim (strchr line 13) [ some i ↦ some i | none ↦ strchr line 61 ]
]

-- Key and value of a record that has no more characters than it shall have.
unfoldable pub split_record : Bytes → Option (Bytes × Bytes)
unfolding strchr strltrim strrtrim
split_record cut = elim (strchr cut 61) [
  | none ↦ none
  | some j ↦ some (strrtrim (take j cut), strrtrim (strltrim (drop (suc j) cut)))
]

unfoldable pub extract_key_value : Bytes → Option (Bytes × Bytes)
unfolding record_end split_record
extract_key_value line = elim (record_end line) [
  | none ↦ none
  | some i ↦ split_record (if get_or line i 0 == 61 then line else take i line)
]

unfoldable pub enter_section : Bytes → Parser → Parser
unfolding at_section
enter_section name p = record p {
  content = at_section name (λ t. t) p.content;
  section_name = name;
  in_section = true;
}

-- `pSC->insert(pairKeyValue)`
unfoldable pub add_pair : Bytes → Bytes → Parser → Parser
unfolding at_section insert
add_pair key value p = record p {
  content = at_section p.section_name (λ t. insert t key value) p.content;
}

-- The branch for a line that is no section: false for SYNTAX_ERROR.
unfoldable pub parse_record : Bytes → Parser → Bool × Parser
unfolding extract_key_value add_pair
parse_record line p = elim (extract_key_value line) [
  | none ↦ (false, p)
  | some (key, value) ↦ (true, add_pair key value p)
]

-- A trimmed line that is neither empty nor a comment.
unfoldable pub parse_content : Bytes → Parser → Bool × Parser
unfolding parse_record extract_section enter_section
parse_content line p = elim (extract_section line) [
  | some name ↦ (true, enter_section name p)
  | none ↦ if p.in_section then parse_record line p else (false, p)
]

-- A line without the blanks it begins with: nothing is left of a white line.
unfoldable pub parse_trimmed : Bytes → Parser → Bool × Parser
unfolding parse_content
parse_trimmed text p =
    if get_or text 0 0 == 0
    then (true, p)
    else (if get_or text 0 0 == comment_mark then (true, p) else parse_content text p)

unfoldable pub parse_line : Bytes → Parser → Bool × Parser
unfolding strltrim parse_trimmed
parse_line line p = parse_trimmed (strltrim line) (record p { error_line = p.error_line + 1 })

unfoldable pub parse_lines : List Bytes → Parser → ℕ × Parser
unfolding parse_line
parse_lines [] p = (0, p)
parse_lines (line ∷ lines) p =
    let (ok, p') = parse_line line p in
    let rest = parse_lines lines p' in if ok then rest else (syntax_error, p')

-- The state when the loop over the lines begins.
unfoldable pub begin : Parser → Parser
unfolding at_section
begin p = record p {
  content = at_section default_section (λ t. t) [];
  section_name = default_section;
  in_section = true;
  error_line = 0;
}

-- getline until the end of the file: there is a last line, empty or not, after the last newline.
unfoldable pub split_lines : Bytes → List Bytes
split_lines [] = [] ∷ []
split_lines (c ∷ text) =
    let rest = split_lines text in
    if c == 10
    then [] ∷ rest
    else (elim rest as (λ _. List Bytes) [ [] ↦ (c ∷ []) ∷ [] | line ∷ lines ↦ (c ∷ line) ∷ lines ])

-- The characters before the first NUL.
unfoldable pub c_str : Bytes → Bytes
c_str [] = []
c_str (c ∷ str) = let rest = c_str str in if c == 0 then [] else c ∷ rest

-- The first loop: each line, with a newline after it, into `mystr`.
unfoldable pub join_lines : List Bytes → Bytes
unfolding c_str
join_lines [] = []
join_lines (line ∷ lines) = c_str line ++ (10 ∷ join_lines lines)

-- `char line[2048]` holds the line and its NUL. On a longer one getline fails before the end of the
-- file, and then on every call, so that the loop does not end.
unfoldable pub fit : List Bytes → Bool
fit [] = true
fit (line ∷ lines) = ltb (length line) 2048 && fit lines

-- `file` is the text of a file that is open; `none` is a loop that does not end.
unfoldable pub parse_text : Bytes → Parser → Option (ℕ × Parser)
unfolding parse_lines begin split_lines join_lines fit
parse_text file p =
    if fit (split_lines file)
    then some (parse_lines (split_lines (join_lines (split_lines file))) (begin p))
    else none

-- With the errno of an open that fails.
unfoldable pub parse_file : Option Bytes → ℕ → Parser → Option (ℕ × Parser)
unfolding parse_text
parse_file none errno p = some (errno, p)
parse_file (some file) errno p = parse_text file p

unfoldable pub find_value : FileContent → Bytes → Bytes → Option Bytes
unfolding find
find_value content section_name key = elim (find content section_name) [
  | none ↦ none
  | some t ↦ find t key
]

-- What is there, or the empty string.
abbrev pub value_of : Option Bytes → Bytes
value_of none = []
value_of (some v) = v

unfoldable pub get_value : Parser → Bytes → Bytes → Bytes
unfolding find_value
get_value p section_name key = value_of (find_value p.content section_name key)

unfoldable pub get_int_value : Parser → Bytes → Bytes → ℤ
unfolding get_value atol
get_int_value p section_name key = atol (get_value p section_name key)
