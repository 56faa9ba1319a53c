-- ===== src/Config/Meaning.antt =====
-- The parser finds in a text of settings what the settings mean.
use epoll_based_fault_diagno.Base.{
  ◌≡◌, refl, ap, ◌∙◌, true, List, [], ◌∷◌, ◌++◌, map, Bytes, none, some, Bool-cases, inl, inr,
  append_assoc,
}
use epoll_based_fault_diagno.Text.{same, strltrim}
use epoll_based_fault_diagno.Text.Trim.{Without}
use epoll_based_fault_diagno.Config.{
  Parser, parse_line, parse_trimmed, parse_lines, find, get_value, value_of, find_value, begin,
  split_lines, join_lines, c_str, fit, parse_text, at_section, default_section,
}
use epoll_based_fault_diagno.Config.Lookup.{or_else}
use epoll_based_fault_diagno.Config.Written.{Item, written, IsLine, AllItems, first_value}
use epoll_based_fault_diagno.Config.Items.{
  counted, run_items, parse_lines-written, find_value-run_items,
}

unfoldable pub AllLines : List Bytes → Type 0
unfolding IsLine
AllLines [] = true ≡ true
AllLines (line ∷ lines) = IsLine line × AllLines lines

pub AllItems-AllLines : (is : List Item) → AllItems is → AllLines (map written is)
unfolding AllItems AllLines
AllItems-AllLines [] all = refl
AllItems-AllLines (i ∷ is) (item, line, all) = (line, AllItems-AllLines is all)

pub AllLines-append : (xs ys : List Bytes) → AllLines xs → AllLines ys → AllLines (xs ++ ys)
unfolding AllLines
AllLines-append [] ys x y = y
AllLines-append (l ∷ xs) ys (line, x) y = (line, AllLines-append xs ys x y)

empty_lines : AllLines ([] ∷ [])
unfolding AllLines IsLine Without
empty_lines = ((refl, refl, refl), refl)

c_str-Without : (str : Bytes) → Without 0 str → c_str str ≡ str
unfolding c_str Without
c_str-Without [] w = refl
c_str-Without (c ∷ str) (head, tail) = rw (head, c_str-Without str tail) refl

split_lines-line :
    (line text : Bytes)
    → Without 10 line
    → split_lines (line ++ (10 ∷ text)) ≡ line ∷ split_lines text
unfolding split_lines Without
split_lines-line [] text w = refl
split_lines-line (c ∷ line) text (head, tail) = rw (head, split_lines-line line text tail) refl

-- Lines that are joined are split again, and an empty one comes after the last newline.
split_lines-join_lines :
    (lines : List Bytes) → AllLines lines → split_lines (join_lines lines) ≡ lines ++ ([] ∷ [])
unfolding split_lines join_lines AllLines IsLine
split_lines-join_lines [] all = refl
split_lines-join_lines (line ∷ lines) ((nl, nul, short), all) =
    rw
      (
        c_str-Without line nul,
        split_lines-line line (join_lines lines) nl,
        split_lines-join_lines lines all,
      )
      refl

fit-AllLines : (lines : List Bytes) → AllLines lines → fit lines ≡ true
unfolding fit AllLines IsLine
fit-AllLines [] all = refl
fit-AllLines (line ∷ lines) ((nl, nul, short), all) = rw (short, fit-AllLines lines all) refl

pub parse_text-lines :
    (lines : List Bytes) (p : Parser)
    → AllLines lines
    → parse_text (join_lines lines) p
      ≡ some (parse_lines ((lines ++ ([] ∷ [])) ++ ([] ∷ [])) (begin p))
unfolding parse_text
parse_text-lines lines p all =
    let all' = AllLines-append lines ([] ∷ []) all empty_lines in
    rw
      (
        parse_text,
        split_lines-join_lines lines all,
        fit-AllLines (lines ++ ([] ∷ [])) all',
        split_lines-join_lines (lines ++ ([] ∷ [])) all',
      )
      refl

begin-nothing : (p : Parser) (s key : Bytes) → find_value (begin p).content s key ≡ none
unfolding find_value begin at_section find same
begin-nothing p s key = elim (Bool-cases (same default_section s)) [
  | inl here ↦ rw (here) refl
  | inr apart ↦ rw (apart) refl
]

pub get_value-run_items :
    (is : List Item) (p : Parser) (s key : Bytes)
    → get_value (run_items is (begin p)) s key ≡ value_of (first_value default_section is s key)
unfolding get_value or_else begin
get_value-run_items is p s key =
    ap value_of (find_value-run_items is (begin p) s key)
    ∙ ap (λ o. value_of (or_else o (first_value default_section is s key))) (begin-nothing p s key)

after_empty : (p : Parser) → parse_lines ([] ∷ [] ∷ []) p ≡ (0, counted (counted p))
unfolding parse_lines parse_line parse_trimmed strltrim counted
after_empty p = refl

-- A file of settings as they are written (headings, records with or without `;` and a text after it,
-- comments and white lines, each line shorter than 2048 characters) is parsed, with code 0, and then
-- getValue returns, for any section and key, what the settings mean: the first value that an entry
-- of that key has in that section, with the entries before any heading in `default`, and the empty
-- string if there is none.
pub parse_text-get_value :
    (is : List Item) (p : Parser)
    → AllItems is
    → (q : Parser) × (parse_text (join_lines (map written is)) p ≡ some (0, q))
      × ((s key : Bytes) → get_value q s key ≡ value_of (first_value default_section is s key))
unfolding counted begin run_items get_value
parse_text-get_value is p all = (
  counted (counted (run_items is (begin p))),
  parse_text-lines (map written is) p (AllItems-AllLines is all)
      ∙ ap (λ lines. some (parse_lines lines (begin p)))
          (append_assoc (map written is) ([] ∷ []) ([] ∷ []))
      ∙ ap some (
          parse_lines-written is ([] ∷ [] ∷ []) (begin p) refl all
          ∙ after_empty (run_items is (begin p))),
  get_value-run_items is p,
)
