-- ===== src/Config/Items.antt =====
-- What each written item, and a list of them, does to the parser.
use epoll_based_fault_diagno.Base.{
  ℕ, ◌+◌, ◌≡◌, refl, sym, ap, ◌∙◌, true, false, List, [], ◌∷◌, ◌++◌, map, Bytes, Option, none, some,
  arith, ◌==◌, if◌then◌else◌,
}
use epoll_based_fault_diagno.Text.{blank, same, strltrim}
use epoll_based_fault_diagno.Text.Trim.{Trimmed, Without}
use epoll_based_fault_diagno.Config.{
  Parser, parse_line, parse_trimmed, parse_lines, parse_content, parse_record, enter_section,
  add_pair, extract_section, extract_key_value, find_value,
}
use epoll_based_fault_diagno.Config.Lookup.{
  or_else, or_else-none, find_value-at_section, find_value-insert,
}
use epoll_based_fault_diagno.Config.Written.{
  Item, heading, entry, closed_entry, remark, empty_line, written, IsField, IsKey, IsItem, IsLine,
  AllItems, first_value, after_item, extract-entry, extract-closed_entry, extract_section-heading,
}

unfoldable pub counted : Parser → Parser
counted p = record p { error_line = p.error_line + 1 }

strltrim-head : (c : ℕ) (line : Bytes) → blank c ≡ false → strltrim (c ∷ line) ≡ c ∷ line
unfolding strltrim
strltrim-head c line b = rw b refl

pub parse_line-head :
    (c : ℕ) (line : Bytes) (p : Parser)
    → blank c ≡ false
    → parse_line (c ∷ line) p ≡ parse_trimmed (c ∷ line) (counted p)
unfolding parse_line counted
parse_line-head c line p b = ap (λ text. parse_trimmed text (counted p)) (strltrim-head c line b)

-- A line that begins as a key does and holds a record.
record_line :
    (c : ℕ) (line key value : Bytes) (p : Parser)
    → p.in_section ≡ true
    → blank c ≡ false
    → (c == 0) ≡ false
    → (c == 91) ≡ false
    → (c == 35) ≡ false
    → extract_key_value (c ∷ line) ≡ some (key, value)
    → parse_line (c ∷ line) p ≡ (true, add_pair key value (counted p))
unfolding parse_trimmed parse_content parse_record extract_section add_pair counted
record_line c line key value p inside b z s m e =
    parse_line-head c line p b
    ∙ rw (z, m, parse_content, extract_section, s, inside, parse_record, e)
        (ap (λ b. (true, record (add_pair key value (counted p)) { in_section = b })) inside)

heading_line :
    (name : Bytes) (p : Parser)
    → Without 93 name
    → parse_line (91 ∷ (name ++ (93 ∷ []))) p ≡ (true, enter_section name (counted p))
unfolding parse_trimmed parse_content counted blank
heading_line name p w =
    parse_line-head 91 (name ++ (93 ∷ [])) p refl
    ∙ rw (parse_content, extract_section-heading name w) refl

ignored_line : (text : Bytes) (p : Parser) → parse_line (35 ∷ text) p ≡ (true, counted p)
unfolding parse_trimmed counted blank
ignored_line text p = parse_line-head 35 text p refl

pub blank_line : (p : Parser) → parse_line [] p ≡ (true, counted p)
unfolding parse_line parse_trimmed strltrim counted
blank_line p = refl

first_of : (c : ℕ) (key : Bytes) → IsField (c ∷ key) → blank c ≡ false
unfolding IsField Trimmed
first_of c key ((head, last), w, w') = head

parse_line-written :
    (i : Item) (p : Parser)
    → p.in_section ≡ true
    → IsItem i
    → Without 0 (written i)
    → parse_line (written i) p ≡ (true, after_item i (counted p))
unfolding written IsItem IsKey Without after_item counted
parse_line-written (heading name) p inside w z = heading_line name p w
parse_line-written (entry [] value) p inside (k, v) z = ground arith
parse_line-written (entry (c ∷ key) value) p inside ((k, eq, s, m), v) (z, _) =
    record_line c (key ++ (61 ∷ value)) (c ∷ key) value p inside (first_of c key k) z s m
      (extract-entry (c ∷ key) value eq k v)
parse_line-written (closed_entry [] value tail) p inside (k, v) z = ground arith
parse_line-written (closed_entry (c ∷ key) value tail) p inside ((k, eq, s, m), v) (z, _) =
    record_line c ((key ++ (61 ∷ value)) ++ (59 ∷ tail)) (c ∷ key) value p inside (first_of c key k)
      z s m (extract-closed_entry (c ∷ key) value tail eq k v)
parse_line-written (remark text) p inside i z = ignored_line text p
parse_line-written empty_line p inside i z = blank_line p

-- The parser after all items.
unfoldable pub run_items : List Item → Parser → Parser
run_items [] p = p
run_items (i ∷ is) p = run_items is (after_item i (counted p))

pub after_item-in_section :
    (i : Item) (p : Parser) → p.in_section ≡ true → (after_item i p).in_section ≡ true
unfolding after_item enter_section add_pair
after_item-in_section (heading name) p inside = refl
after_item-in_section (entry key value) p inside = inside
after_item-in_section (closed_entry key value tail) p inside = inside
after_item-in_section (remark text) p inside = inside
after_item-in_section empty_line p inside = inside

pub parse_lines-written :
    (is : List Item) (more : List Bytes) (p : Parser)
    → p.in_section ≡ true
    → AllItems is
    → parse_lines (map written is ++ more) p ≡ parse_lines more (run_items is p)
unfolding parse_lines run_items AllItems IsLine counted
parse_lines-written [] more p inside all = refl
parse_lines-written (i ∷ is) more p inside (item, (_, z, _), all) =
    rw (parse_line-written i p inside item z) (
      parse_lines-written is more (after_item i (counted p))
        (after_item-in_section i (counted p) inside) all)

or_else_assoc {ℓ} :
    {A : Type ℓ} (a b c : Option A) → or_else (or_else a b) c ≡ or_else a (or_else b c)
unfolding or_else
or_else_assoc none b c = refl
or_else_assoc (some a) b c = refl

pub find_value-run_items :
    (is : List Item) (p : Parser) (s key : Bytes)
    → find_value (run_items is p).content s key
      ≡ or_else (find_value p.content s key) (first_value p.section_name is s key)
unfolding run_items first_value after_item enter_section add_pair counted
find_value-run_items [] p s key = sym (or_else-none (find_value p.content s key))
find_value-run_items (heading name ∷ is) p s key =
    rw
      (
        find_value-run_items is (after_item (heading name) (counted p)) s key,
        find_value-at_section name p.content s key,
      )
      refl
find_value-run_items (entry k v ∷ is) p s key =
    rw
      (
        find_value-run_items is (after_item (entry k v) (counted p)) s key,
        find_value-insert p.section_name k v p.content s key,
      )
      (or_else_assoc (find_value p.content s key)
        (if same p.section_name s then (if same k key then some v else none) else none)
        (first_value p.section_name is s key))
find_value-run_items (closed_entry k v tail ∷ is) p s key =
    rw
      (
        find_value-run_items is (after_item (entry k v) (counted p)) s key,
        find_value-insert p.section_name k v p.content s key,
      )
      (or_else_assoc (find_value p.content s key)
        (if same p.section_name s then (if same k key then some v else none) else none)
        (first_value p.section_name is s key))
find_value-run_items (remark text ∷ is) p s key = find_value-run_items is (counted p) s key
find_value-run_items (empty_line ∷ is) p s key = find_value-run_items is (counted p) s key
