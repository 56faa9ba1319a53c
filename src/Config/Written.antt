-- ===== src/Config/Written.antt =====
-- What the parser makes of a text that is written as settings.
use epoll_based_fault_diagno.Base.{
  ℕ, suc, ◌≡◌, refl, true, false, List, [], ◌∷◌, ◌++◌, Bytes, Option, none, some, length, get_or,
  take, drop, ◌==◌, ltb, if◌then◌else◌, take-append,
}
use epoll_based_fault_diagno.Text.{same}
use epoll_based_fault_diagno.Text.Trim.{
  Trimmed, Without, strchr-Without, strchr-found, Without-append, strltrim-Trimmed,
  strrtrim-Trimmed,
}
use epoll_based_fault_diagno.Config.{
  Parser, enter_section, add_pair, extract_section, extract_key_value, record_end, split_record,
}
use epoll_based_fault_diagno.Config.Lookup.{or_else}

-- The lines of a settings file. An entry is `key=value`, and may end with `;` and any text.
pub data Item : Type 0 where
  heading : Bytes → Item
  entry : Bytes → Bytes → Item
  closed_entry : Bytes → Bytes → Bytes → Item
  remark : Bytes → Item
  empty_line : Item

unfoldable pub written : Item → Bytes
written (heading name) = 91 ∷ (name ++ (93 ∷ []))
written (entry key value) = key ++ (61 ∷ value)
written (closed_entry key value tail) = (key ++ (61 ∷ value)) ++ (59 ∷ tail)
written (remark text) = 35 ∷ text
written empty_line = []

-- A key or value that stands for itself: no blank at its ends, no `;` and no carriage return.
unfoldable pub IsField : Bytes → Type 0
unfolding Trimmed Without
IsField str = Trimmed str × Without 59 str × Without 13 str

-- A key is not empty, has no `=`, and does not begin as a section or a comment does.
unfoldable pub IsKey : Bytes → Type 0
unfolding IsField
IsKey [] = true ≡ false
IsKey (c ∷ key) =
    IsField (c ∷ key) × Without 61 (c ∷ key) × ((c == 91) ≡ false) × ((c == 35) ≡ false)

unfoldable pub IsItem : Item → Type 0
unfolding IsKey IsField Without
IsItem (heading name) = Without 93 name
IsItem (entry key value) = IsKey key × IsField value
IsItem (closed_entry key value tail) = IsKey key × IsField value
IsItem (remark text) = true ≡ true
IsItem empty_line = true ≡ true

-- A written line that a line of a file can be.
unfoldable pub IsLine : Bytes → Type 0
unfolding Without
IsLine line = Without 10 line × Without 0 line × (ltb (length line) 2048 ≡ true)

unfoldable pub AllItems : List Item → Type 0
unfolding IsItem IsLine
AllItems [] = true ≡ true
AllItems (i ∷ is) = IsItem i × IsLine (written i) × AllItems is

-- What the settings mean: the first value of a key among the entries of its section, where `current`
-- is the section that the entries before any heading belong to.
unfoldable pub first_value : Bytes → List Item → Bytes → Bytes → Option Bytes
unfolding or_else
first_value current [] s key = none
first_value current (heading name ∷ is) s key = first_value name is s key
first_value current (entry k v ∷ is) s key =
    or_else (if same current s then (if same k key then some v else none) else none)
      (first_value current is s key)
first_value current (closed_entry k v tail ∷ is) s key =
    or_else (if same current s then (if same k key then some v else none) else none)
      (first_value current is s key)
first_value current (remark text ∷ is) s key = first_value current is s key
first_value current (empty_line ∷ is) s key = first_value current is s key

-- What one item does to the parser.
unfoldable pub after_item : Item → Parser → Parser
unfolding enter_section add_pair
after_item (heading name) p = enter_section name p
after_item (entry key value) p = add_pair key value p
after_item (closed_entry key value tail) p = add_pair key value p
after_item (remark text) p = p
after_item empty_line p = p

module _ {ℓ} {A : Type ℓ} where
  get_or-here : (xs ys : List A) (v d : A) → get_or (xs ++ (v ∷ ys)) (length xs) d ≡ v
  get_or-here [] ys v d = refl
  get_or-here (x ∷ xs) ys v d = get_or-here xs ys v d

  take-here : (xs ys : List A) → take (length xs) (xs ++ ys) ≡ xs
  take-here xs ys = take-append (length xs) xs ys refl

  drop-past : (xs ys : List A) (v : A) → drop (suc (length xs)) (xs ++ (v ∷ ys)) ≡ ys
  drop-past [] ys v = refl
  drop-past (x ∷ xs) ys v = drop-past xs ys v

split_record-written :
    (key value : Bytes)
    → Without 61 key
    → Trimmed key
    → Trimmed value
    → split_record (key ++ (61 ∷ value)) ≡ some (key, value)
unfolding split_record
split_record-written key value eq k v =
    rw
      (
        split_record,
        strchr-found key value 61 eq,
        take-here key (61 ∷ value),
        drop-past key value 61,
        strltrim-Trimmed value v,
        strrtrim-Trimmed value v,
        strrtrim-Trimmed key k,
      )
      refl

Without-end :
    (c : ℕ) (key value : Bytes)
    → (61 == c) ≡ false
    → Without c key
    → Without c value
    → Without c (key ++ (61 ∷ value))
unfolding Without
Without-end c key value eq k v = Without-append c key (61 ∷ value) k (eq, v)

-- A record is read back, without `;` and whatever stands behind it.
pub extract-entry :
    (key value : Bytes)
    → Without 61 key
    → IsField key
    → IsField value
    → extract_key_value (key ++ (61 ∷ value)) ≡ some (key, value)
unfolding extract_key_value record_end IsField
extract-entry key value eq (kt, k59, k13) (vt, v59, v13) =
    rw
      (
        extract_key_value,
        record_end,
        strchr-Without (key ++ (61 ∷ value)) 59 (Without-end 59 key value refl k59 v59),
        strchr-Without (key ++ (61 ∷ value)) 13 (Without-end 13 key value refl k13 v13),
        strchr-found key value 61 eq,
        get_or-here key value 61 0,
      )
      (split_record-written key value eq kt vt)

pub extract-closed_entry :
    (key value tail : Bytes)
    → Without 61 key
    → IsField key
    → IsField value
    → extract_key_value ((key ++ (61 ∷ value)) ++ (59 ∷ tail)) ≡ some (key, value)
unfolding extract_key_value record_end IsField
extract-closed_entry key value tail eq (kt, k59, k13) (vt, v59, v13) =
    rw
      (
        extract_key_value,
        record_end,
        strchr-found (key ++ (61 ∷ value)) tail 59 (Without-end 59 key value refl k59 v59),
        get_or-here (key ++ (61 ∷ value)) tail 59 0,
        take-here (key ++ (61 ∷ value)) (59 ∷ tail),
      )
      (split_record-written key value eq kt vt)

pub extract_section-heading :
    (name : Bytes) → Without 93 name → extract_section (91 ∷ (name ++ (93 ∷ []))) ≡ some name
unfolding extract_section
extract_section-heading name w =
    rw (extract_section, strchr-found name [] 93 w, take-here name (93 ∷ [])) refl
