-- ===== src/Text.antt =====
-- The C strings of the parser of settings: the trimming functions of CCfgFileParser.cpp and the
-- functions of the C library that it calls. A string is the list of its characters before the NUL.
pub mod Trim
use epoll_based_fault_diagno.Base.{
  ℕ, zero, suc, ◌+◌, ◌-◌, ◌*◌, Bool, true, false, ◌&&◌, ◌||◌, List, [], ◌∷◌, Bytes, Option, none,
  some, ℤ, pos, negsuc, length, get_or, take, drop, leb, ltb, ◌==◌, if◌then◌else◌,
}

unfoldable pub isspace : ℕ → Bool
isspace c = c == 32 || (leb 9 c && leb c 13)

unfoldable pub istab : ℕ → Bool
istab c = c == 9

unfoldable pub blank : ℕ → Bool
unfolding isspace istab
blank c = isspace c || istab c

unfoldable pub strltrim : Bytes → Bytes
unfolding blank
strltrim [] = []
strltrim (c ∷ str) = let rest = strltrim str in if blank c then rest else c ∷ str

-- The loop of `strrtrim` at `len` characters. With none left the source still tests the one before
-- the string, and writes only before it.
unfoldable pub rtrim_to : ℕ → Bytes → Bytes
unfolding blank
rtrim_to zero str = str
rtrim_to (suc len) str =
    let rest = rtrim_to len (take len str) in if blank (get_or str len 0) then rest else str

unfoldable pub strrtrim : Bytes → Bytes
unfolding rtrim_to
strrtrim str = rtrim_to (length str) str

-- The index of the first `c`, or `none` for NULL.
unfoldable pub strchr : Bytes → ℕ → Option ℕ
strchr [] c = none
strchr (x ∷ str) c =
    let rest : Option ℕ = elim (strchr str c) [ none ↦ none | some i ↦ some (suc i) ] in
    if x == c then some 0 else rest

unfoldable pub same : Bytes → Bytes → Bool
same [] [] = true
same [] (y ∷ ys) = false
same (x ∷ xs) [] = false
same (x ∷ xs) (y ∷ ys) = x == y && same xs ys

unfoldable pub digits : ℕ → Bytes → ℕ
digits n [] = n
digits n (c ∷ str) =
    let rest = digits (10 * n + (c - 48)) str in if leb 48 c && leb c 57 then rest else n

unfoldable signed : Bytes → ℤ
unfolding digits
signed [] = pos 0
signed (c ∷ str) =
    if c == 45
    then (if digits 0 str == 0 then pos 0 else negsuc (digits 0 str - 1))
    else (if c == 43 then pos (digits 0 str) else pos (digits 0 (c ∷ str)))

-- `atol`, for numbers that a long holds.
unfoldable pub atol : Bytes → ℤ
unfolding signed strltrim
atol str = signed (strltrim str)
