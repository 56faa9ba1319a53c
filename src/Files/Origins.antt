-- ===== src/Files/Origins.antt =====
-- What getCodeLine makes of a path and a line: the last name of the path, and the line in decimal.
use epoll_based_fault_diagno.Base.{◌≤◌, ◌≡◌, false, [], ◌∷◌, Bytes}
use epoll_based_fault_diagno.Files.{is_separator}

abbrev AllDigits : Bytes → Type 0
AllDigits [] = Unit {0}
AllDigits (c ∷ cs) = (48 ≤ c) × (c ≤ 57) × AllDigits cs

-- A name without directories.
abbrev pub NoSeparator : Bytes → Type 0
NoSeparator [] = Unit {0}
NoSeparator (c ∷ cs) = (is_separator c ≡ false) × NoSeparator cs
