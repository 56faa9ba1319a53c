-- ===== src/Config/Errors.antt =====
-- Where the parser meets a line that it cannot read.
use epoll_based_fault_diagno.Base.{
  ℕ, zero, suc, ◌+◌, ◌≡◌, refl, ap, ◌∙◌, true, false, List, [], ◌∷◌, ◌++◌, map, Bytes, none, some,
  length, arith, ◌==◌, if◌then◌else◌, take, get_or, Bool-cases, inl, inr, Option-cases,
  append_assoc,
}
use epoll_based_fault_diagno.Text.{blank}
use epoll_based_fault_diagno.Text.Trim.{Without, strchr-Without}
use epoll_based_fault_diagno.Config.{
  Parser, parse_line, parse_trimmed, parse_lines, parse_content, parse_record, extract_section,
  extract_key_value, record_end, split_record, get_value, value_of, syntax_error, begin, join_lines,
  parse_text, default_section,
}
use epoll_based_fault_diagno.Config.Written.{
  Item, written, IsLine, AllItems, first_value, after_item, heading, entry, closed_entry, remark,
  empty_line,
}
use epoll_based_fault_diagno.Config.Items.{
  after_item-in_section, counted, run_items, parse_line-head, parse_lines-written,
}
use epoll_based_fault_diagno.Config.Meaning.{
  AllLines, AllItems-AllLines, AllLines-append, parse_text-lines, get_value-run_items,
}

Without-take : (c n : ℕ) (str : Bytes) → Without c str → Without c (take n str)
unfolding Without
Without-take c zero str w = refl
Without-take c (suc n) [] w = refl
Without-take c (suc n) (x ∷ str) (head, tail) = (head, Without-take c n str tail)

split_record-none : (cut : Bytes) → Without 61 cut → split_record cut ≡ none
unfolding split_record
split_record-none cut w = rw (split_record, strchr-Without cut 61 w) refl

cut_none :
    (line : Bytes) (i : ℕ)
    → Without 61 line
    → split_record (if get_or line i 0 == 61 then line else take i line) ≡ none
cut_none line i w = elim (Bool-cases (get_or line i 0 == 61)) [
  | inl whole ↦ rw whole (split_record-none line w)
  | inr part ↦ rw part (split_record-none (take i line) (Without-take 61 i line w))
]

extract-none : (line : Bytes) → Without 61 line → extract_key_value line ≡ none
unfolding extract_key_value
extract-none line w = elim (Option-cases (record_end line)) [
  | inl missing ↦ rw (extract_key_value, missing) refl
  | inr (i, at) ↦ rw (extract_key_value, at) (cut_none line i w)
]

-- A line that is neither white nor a comment nor begins a section, and has no `=`.
unfoldable pub IsBad : Bytes → Type 0
unfolding Without
IsBad [] = true ≡ false
IsBad (c ∷ line) =
    (blank c ≡ false)
    × ((c == 0) ≡ false)
    × ((c == 91) ≡ false)
    × ((c == 35) ≡ false)
    × Without 61 (c ∷ line)

parse_line-bad :
    (line : Bytes) (p : Parser)
    → IsBad line
    → p.in_section ≡ true
    → parse_line line p ≡ (false, counted p)
unfolding IsBad parse_trimmed parse_content parse_record extract_section counted
parse_line-bad [] p bad inside = ground arith
parse_line-bad (c ∷ line) p (b, z, s, m, eq) inside =
    parse_line-head c line p b
    ∙ rw (z, m, parse_content, extract_section, s, inside, parse_record, extract-none (c ∷ line) eq)
        (ap (λ b. (false, record (counted p) { in_section = b })) inside)

after_item-error_line : (i : Item) (p : Parser) → (after_item i p).error_line ≡ p.error_line
unfolding after_item
after_item-error_line (heading name) p = refl
after_item-error_line (entry key value) p = refl
after_item-error_line (closed_entry key value tail) p = refl
after_item-error_line (remark text) p = refl
after_item-error_line empty_line p = refl

run_items-error_line :
    (is : List Item) (p : Parser) → (run_items is p).error_line ≡ p.error_line + length is
unfolding run_items counted
run_items-error_line [] p = omega arith
run_items-error_line (i ∷ is) p =
    omega (
      arith,
      run_items-error_line is (after_item i (counted p)),
      after_item-error_line i (counted p),
    )

run_items-in_section :
    (is : List Item) (p : Parser) → p.in_section ≡ true → (run_items is p).in_section ≡ true
unfolding run_items counted
run_items-in_section [] p inside = inside
run_items-in_section (i ∷ is) p inside =
    run_items-in_section is (after_item i (counted p)) (after_item-in_section i (counted p) inside)

parse_lines-bad :
    (bad : Bytes) (more : List Bytes) (p : Parser)
    → IsBad bad
    → p.in_section ≡ true
    → parse_lines (bad ∷ more) p ≡ (syntax_error, counted p)
unfolding parse_lines
parse_lines-bad bad more p wrong inside = rw (parse_line-bad bad p wrong inside) refl

-- When settings as they are written are followed by a line that is not white, no comment, begins no
-- section and has no `=`, whatever lines come after it, parseFile returns SYNTAX_ERROR,
-- `m_error_line` is the number of that line, from 1, and what the settings before it mean is found.
pub parse_text-syntax_error :
    (is : List Item) (bad : Bytes) (more : List Bytes) (p : Parser)
    → AllItems is
    → IsLine bad
    → IsBad bad
    → AllLines more
    → (q : Parser) × (parse_text (join_lines (map written is ++ (bad ∷ more))) p
        ≡ some (syntax_error, q))
      × (q.error_line ≡ length is + 1)
      × ((s key : Bytes) → get_value q s key ≡ value_of (first_value default_section is s key))
unfolding AllLines counted begin run_items get_value
parse_text-syntax_error is bad more p all line wrong rest = (
  counted (run_items is (begin p)),
  parse_text-lines (map written is ++ (bad ∷ more)) p
        (AllLines-append (map written is) (bad ∷ more) (AllItems-AllLines is all) (line, rest))
      ∙ ap (λ lines. some (parse_lines (lines ++ ([] ∷ [])) (begin p)))
          (append_assoc (map written is) (bad ∷ more) ([] ∷ []))
      ∙ ap (λ lines. some (parse_lines lines (begin p)))
          (append_assoc (map written is) (bad ∷ (more ++ ([] ∷ []))) ([] ∷ []))
      ∙ ap some (
          parse_lines-written is (bad ∷ ((more ++ ([] ∷ [])) ++ ([] ∷ []))) (begin p) refl all
          ∙ parse_lines-bad bad ((more ++ ([] ∷ [])) ++ ([] ∷ [])) (run_items is (begin p)) wrong
              (run_items-in_section is (begin p) refl)),
  omega (arith, run_items-error_line is (begin p)),
  get_value-run_items is p,
)
