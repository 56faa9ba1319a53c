-- ===== src/Files.antt =====
-- audioserver/MyFile.cpp, which the client has a copy of: names of files by month and day, and the
-- places in the source that are printed with errors.
--
-- A string is the list of its characters before the NUL. The file system is a parameter.
pub mod Names
pub mod Origins
use epoll_based_fault_diagno.Base.{
  ℕ, zero, suc, ◌+◌, ◌-◌, ◌/◌, ◌%◌, Bool, true, false, not, ◌||◌, List, [], ◌∷◌, ◌++◌, Bytes,
  Option, none, some, ℤ, pos, negsuc, length, get_or, take, drop, replicate, ltb, leb, ◌==◌,
  if◌then◌else◌,
}
use epoll_based_fault_diagno.Paths.{with_slash}

-- The decimal digits of an int, and none for 0.
unfoldable pub digits_of : ℕ → ℕ → Bytes
digits_of zero n = []
digits_of (suc fuel) n =
    let before = digits_of fuel (n / 10) in if n == 0 then [] else before ++ ((48 + n % 10) ∷ [])

-- `%.wd` of sprintf; `%d` is that for `w` = 1. An int has at most ten digits.
unfoldable pub padded : ℕ → ℕ → Bytes
unfolding digits_of
padded w n = replicate (w - length (digits_of 10 n)) 48 ++ digits_of 10 n

-- What getCurTime takes from the system: the fields of tm, the seconds since midnight and `tv_usec`.
pub record LocalTime : Type 0 where
  pub tm_year : ℕ
  pub tm_mon : ℕ
  pub tm_mday : ℕ
  pub sec : ℕ
  pub tv_usec : ℕ

unfoldable pub get_cur_time : LocalTime → Bytes
unfolding padded
get_cur_time t =
    padded 4 (t.tm_year + 1900)
    ++ (45
        ∷ (padded 2 (t.tm_mon + 1)
            ++ (45
                ∷ (padded 2 t.tm_mday
                    ++ (32
                        ∷ (padded 2 (t.sec / 3600)
                            ++ (58
                                ∷ (padded 2 (t.sec % 3600 / 60)
                                    ++ (58
                                        ∷ (padded 2 (t.sec % 60)
                                            ++ (46 ∷ padded 3 (t.tv_usec / 1000))))))))))))

abbrev pub is_separator : ℕ → Bool
is_separator c = c == 92 || c == 47

-- The loop of getCodeLine, from the index that `pNameBegin` points at.
unfoldable pub name_begin : ℕ → Bytes → ℕ
name_begin zero file = if is_separator (get_or file 0 0) then 1 else 0
name_begin (suc p) file =
    let before = name_begin p file in
    if is_separator (get_or file (suc p) 0) then suc (suc p) else before

-- The 100 bytes of `str` are not checked in the source, and are taken to be enough.
unfoldable pub get_code_line : Bytes → ℕ → Bytes
unfolding name_begin padded
get_code_line file line = drop (name_begin (length file) file) file ++ (58 ∷ padded 1 line)

-- `none` is NULL.
pub record MyFileName : Type 0 where
  pub file_path : Option Bytes
  pub prefix : Option Bytes
  pub use_cur_time : Bool
  pub suffix : Option Bytes
  pub mode : Bytes

-- What opendir, mkdir, fopen, stat, readdir and chdir do to the system, whose state is an `S`. The
-- entries that readdir gives are known by whether they are directories.
pub record FileSys (S : Type 0) : Type 0 where
  pub opendir : S → Bytes → Bool
  pub mkdir : S → Bytes → Option S
  pub fopen : S → Bytes → Bytes → Option S
  pub st_size : S → Bytes → Option ℕ
  pub entries : S → Bytes → List Bool
  pub chdir : S → Bytes → S

-- The name so far, and `name_len`.
pub record Naming : Type 0 where
  pub text : Bytes
  pub name_len : ℕ

unfoldable pub add_prefix : Option Bytes → Naming → Naming
add_prefix none n = n
add_prefix (some p) n = record n { text = n.text ++ p; name_len = n.name_len + length p }

-- An empty name has no last character; the source reads one before it, and here that is no slash.
unfoldable pub add_date : Bool → Bytes → Naming → Naming
add_date false time n = n
add_date true time n =
    if get_or n.text (length n.text - 1) 0 == 47
    then record { text = n.text ++ take 10 time; name_len = n.name_len + 10 }
    else record { text = n.text ++ (95 ∷ take 10 time); name_len = n.name_len + 1 + 10 }

-- The end of getFileName, where `false` is `none`.
unfoldable pub add_suffix : Option Bytes → Naming → Option Bytes
add_suffix none n = none
add_suffix (some suffix) n = if n.name_len == 0 then none else some (n.text ++ (46 ∷ suffix))

-- Behind the directories.
unfoldable pub finish_name : Bytes → MyFileName → Bytes → Option Bytes
unfolding add_prefix add_date add_suffix
finish_name time f text =
    add_suffix f.suffix
      (add_date f.use_cur_time time (add_prefix f.prefix (record { text = text; name_len = 0 })))

-- A buffer on the stack, of this many bytes with the NUL.
abbrev pub name_room : ℕ
name_room = 50

module _ {S : Type 0} (sys : FileSys S) where
  unfoldable pub access_my_dir : Bytes → S → Bool × S
  access_my_dir dir s =
      if sys.opendir s dir
      then (true, s)
      else (elim (sys.mkdir s dir) as (λ _. Bool × S) [ none ↦ (false, s) | some s' ↦ (true, s') ])

  -- The directory of the name: `none` where it cannot be made.
  unfoldable pub enter_path : Option Bytes → S → Option Bytes × S
  unfolding with_slash access_my_dir
  enter_path none s = (some [], s)
  enter_path (some path) s =
      let (ok, s') = access_my_dir (with_slash path) s in
      (if ok then some (with_slash path) else none, s')

  unfoldable pub enter_month : Bool → Bytes → Bytes → S → Option Bytes × S
  unfolding access_my_dir
  enter_month false time text s = (some text, s)
  enter_month true time text s =
      let (ok, s') = access_my_dir (text ++ take 7 time) s in
      (if ok then some ((text ++ take 7 time) ++ (47 ∷ [])) else none, s')

  -- getFileName for the value of `g_monthdir` and what getCurTime gives; the caller has given a
  -- buffer. The name is `none` where it answers false.
  unfoldable pub get_file_name : Bool → Bytes → MyFileName → S → Option Bytes × S
  unfolding enter_path enter_month finish_name
  get_file_name monthdir time f s =
      let (dir, s') = enter_path f.file_path s in
      elim dir as (λ _. Option Bytes × S) [
        | none ↦ (none, s')
        | some path ↦
            let (dir', s'') = enter_month monthdir time path s' in
            (
              elim dir' as (λ _. Option Bytes) [
                | none ↦ none
                | some text ↦ finish_name time f text
              ],
              s'',
            )
      ]

  -- openMyFile: `none` is a name that does not fit the buffer, which sprintf writes past.
  unfoldable pub open_my_file : Bool → Bytes → MyFileName → S → Option (Bool × S)
  unfolding get_file_name
  open_my_file monthdir time f s =
      let (name, s') = get_file_name monthdir time f s in
      elim name as (λ _. Option (Bool × S)) [
        | none ↦ some (false, s')
        | some text ↦
            if ltb (length text) name_room
            then some (elim (sys.fopen s' text f.mode) as (λ _. Bool × S) [
              | none ↦ (false, s')
              | some s'' ↦ (true, s'')
            ])
            else none
      ]

  -- getFileSize of a path, in whole kilobytes.
  unfoldable pub get_file_size : Bytes → S → ℤ
  get_file_size name s = elim (sys.st_size s name) as (λ _. ℤ) [
    | none ↦ negsuc 0
    | some n ↦ pos (n / 1024)
  ]

  -- getFileSize of a MyFileName: `false` where there is no name, and `none` where it does not fit.
  unfoldable pub get_named_size : Bool → Bytes → MyFileName → S → Option (ℤ × S)
  unfolding get_file_name get_file_size
  get_named_size monthdir time f s =
      let (name, s') = get_file_name monthdir time f s in
      elim name as (λ _. Option (ℤ × S)) [
        | none ↦ some (pos 0, s')
        | some text ↦ if ltb (length text) name_room then some (get_file_size text s', s') else none
      ]

  unfoldable pub count_files : List Bool → ℕ
  count_files [] = 0
  count_files (is_dir ∷ more) = let rest = count_files more in if is_dir then rest else suc rest

  -- `chdir(dir_name)`, and back by one or two directories.
  unfoldable pub get_file_num_in_dir : Bool → Bytes → Bytes → S → ℕ × S
  unfolding access_my_dir count_files with_slash
  get_file_num_in_dir monthdir time dirname s =
      let dir_name : Bytes = if monthdir then with_slash dirname ++ take 7 time else dirname in
      let back : Bytes = if monthdir then 46 ∷ 46 ∷ 47 ∷ 46 ∷ 46 ∷ [] else 46 ∷ 46 ∷ [] in
      let (ok, s') = access_my_dir dir_name s in
      if ok
      then (count_files (sys.entries s' dir_name), sys.chdir (sys.chdir s' dir_name) back)
      else (0, s')
