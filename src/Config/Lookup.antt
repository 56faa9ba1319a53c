-- ===== src/Config/Lookup.antt =====
-- How the operations on the table of sections change what is found.
use epoll_based_fault_diagno.Base.{
  ◌≡◌, refl, sym, ap, Bool, true, false, [], ◌∷◌, Bytes, Option, none, some, if◌then◌else◌,
  Bool-cases, inl, inr,
}
use epoll_based_fault_diagno.Text.{same}
use epoll_based_fault_diagno.Text.Trim.{same_trans, same-apart}
use epoll_based_fault_diagno.Config.{Table, FileContent, find, insert, at_section, find_value}

-- The first of two results that is there.
unfoldable pub or_else {ℓ} : {A : Type ℓ} → Option A → Option A → Option A
or_else none o = o
or_else (some a) o = some a

module _ {ℓ} {V : Type ℓ} where
  kept :
      (b : Bool) (w : V) (o : Option V) (v : V)
      → (if b then some w else o) ≡ or_else (if b then some w else o) (if b then some v else none)
  unfolding or_else
  kept true w o v = refl
  kept false w none v = refl
  kept false w (some x) v = refl

  past :
      (b : Bool) (w : V) (o p : Option V)
      → (if b then some w else or_else o p) ≡ or_else (if b then some w else o) p
  unfolding or_else
  past true w o p = refl
  past false w o p = refl

  pub find-insert :
      (t : Table V) (k key : Bytes) (v : V)
      → find (insert t k v) key ≡ or_else (find t key) (if same k key then some v else none)
  unfolding find insert or_else
  find-insert [] k key v = refl
  find-insert ((a, w) ∷ t) k key v =
      let rest = find-insert t k key v in
      elim (Bool-cases (same a k)) [
        | inl here ↦ rw (here, sym (same_trans a k key here)) (kept (same a key) w (find t key) v)
        | inr apart ↦
            rw (apart, rest)
              (past (same a key) w (find t key) (if same k key then some v else none))
      ]

pub or_else-none {ℓ} : {A : Type ℓ} (o : Option A) → or_else o none ≡ o
unfolding or_else
or_else-none none = refl
or_else-none (some a) = refl

abbrev pub or_empty : Option (Table Bytes) → Table Bytes
or_empty none = []
or_empty (some t) = t

found_empty :
    (o : Option (Table Bytes)) (key : Bytes)
    → find (or_empty o) key ≡ elim o as (λ _. Option Bytes) [ none ↦ none | some t ↦ find t key ]
unfolding find
found_empty none key = refl
found_empty (some t) key = refl

find-at_section :
    (name s : Bytes) (f : Table Bytes → Table Bytes) (content : FileContent)
    → find (at_section name f content) s
      ≡ (if same name s then some (f (or_empty (find content s))) else find content s)
unfolding find at_section
find-at_section name s f [] = refl
find-at_section name s f ((a, t) ∷ content) =
    let rest = find-at_section name s f content in
    elim (Bool-cases (same a name)) [
      | inl here ↦
          rw (here, sym (same_trans a name s here))
            (elim (Bool-cases (same a s)) [
              | inl found ↦ rw found refl
              | inr missed ↦ rw missed refl
            ])
      | inr apart ↦ rw apart (elim (Bool-cases (same a s)) [
        | inl found ↦ rw (found, same-apart a name s apart found) refl
        | inr missed ↦ rw missed rest
      ])
    ]

-- A section that is entered changes nothing that is found.
pub find_value-at_section :
    (name : Bytes) (content : FileContent) (s key : Bytes)
    → find_value (at_section name (λ t. t) content) s key ≡ find_value content s key
unfolding find_value find
find_value-at_section name content s key =
    rw (find-at_section name s (λ t. t) content, find_value)
      (elim (Bool-cases (same name s)) [
        | inl here ↦ rw here (found_empty (find content s) key)
        | inr apart ↦ rw apart refl
      ])

-- A pair that is added is found, in its section and under its key, if nothing was.
pub find_value-insert :
    (name k v : Bytes) (content : FileContent) (s key : Bytes)
    → find_value (at_section name (λ t. insert t k v) content) s key
      ≡ or_else
          (find_value content s key)
          (if same name s then (if same k key then some v else none) else none)
unfolding find_value find
find_value-insert name k v content s key =
    rw (find-at_section name s (λ t. insert t k v) content, find_value)
      (elim (Bool-cases (same name s)) [
        | inl here ↦
            rw (here, find-insert (or_empty (find content s)) k key v)
              (ap (λ o. or_else o (if same k key then some v else none))
                (found_empty (find content s) key))
        | inr apart ↦ rw apart (
            sym (
              or_else-none (elim (find content s) as (λ _. Option Bytes) [
                | none ↦ none
                | some t ↦ find t key
              ])))
      ])
