-- ===== src/Files/Names.antt =====
-- How long the names are that getFileName builds, and when they fit the buffers of openMyFile.
use epoll_based_fault_diagno.Base.{
  ℕ, ◌+◌, ◌-◌, ◌≤◌, ◌<◌, ◌≡◌, refl, Bool, true, false, [], ◌∷◌, ◌++◌, Bytes, Option, none, some,
  length, length-append, length-take, length-replicate, replicate, take, if◌then◌else◌,
  Option-cases, inl, inr, arith, lt→ltb, not_lt→ltb,
}
use epoll_based_fault_diagno.Paths.{with_slash}
use epoll_based_fault_diagno.Files.{
  padded, digits_of, LocalTime, get_cur_time, MyFileName, FileSys, Naming, add_prefix, add_date,
  add_suffix, enter_path, enter_month, finish_name, get_file_name, name_room, open_my_file,
}

abbrev prefix_length : Option Bytes → ℕ
prefix_length none = 0
prefix_length (some p) = length p

abbrev path_length : Option Bytes → ℕ
path_length none = 0
path_length (some p) = length (with_slash p)

abbrev month_length : Bool → ℕ
month_length monthdir = if monthdir then 8 else 0

abbrev date_length : Bool → ℕ
date_length dated = if dated then 10 else 0

-- The characters of a name, but for the `_` that may stand before the date.
abbrev pub name_bytes : Bool → MyFileName → ℕ
name_bytes monthdir f =
    path_length f.file_path
    + month_length monthdir
    + prefix_length f.prefix
    + date_length f.use_cur_time
    + 1
    + prefix_length f.suffix

padded-length : (w n : ℕ) → w ≤ length (padded w n)
unfolding padded
padded-length w n = omega (
  arith,
  length-append (replicate (w - length (digits_of 10 n)) 48) (digits_of 10 n),
  length-replicate {A = ℕ} (w - length (digits_of 10 n)) 48,
)

length-add_prefix :
    (p : Option Bytes) (n : Naming) → length (add_prefix p n).text ≡ length n.text + prefix_length p
unfolding add_prefix
length-add_prefix none n = omega arith
length-add_prefix (some p) n = length-append n.text p

length-add_date :
    (dated : Bool) (time : Bytes) (n : Naming)
    → 10 ≤ length time
    → (length n.text + date_length dated ≤ length (add_date dated time n).text)
      × (length (add_date dated time n).text ≤ length n.text + date_length dated + 1)
unfolding add_date
length-add_date false time n h = omega arith
length-add_date true time n h = ground (
  arith,
  length-append n.text (take 10 time),
  length-append n.text (95 ∷ take 10 time),
  length-take 10 time,
)

length-add_suffix :
    (suffix : Option Bytes) (n : Naming) (name : Bytes)
    → add_suffix suffix n ≡ some name
    → length name ≡ length n.text + 1 + prefix_length suffix
unfolding add_suffix
length-add_suffix none n name e = ground arith
length-add_suffix (some p) n name e = ground (arith, length-append n.text (46 ∷ p))

length-get_cur_time : (t : LocalTime) → 10 ≤ length (get_cur_time t)
unfolding get_cur_time
length-get_cur_time t = omega (
  arith,
  length-append {0} (padded 4 (t.tm_year + 1900)),
  length-append {0} (padded 2 (t.tm_mon + 1)),
  length-append {0} (padded 2 t.tm_mday),
  padded-length 4 (t.tm_year + 1900),
  padded-length 2 (t.tm_mon + 1),
  padded-length 2 t.tm_mday,
)

module _ {S : Type 0} (sys : FileSys S) where
  length-enter_path :
      (p : Option Bytes) (s : S) (dir : Bytes)
      → (enter_path sys p s).0 ≡ some dir
      → length dir ≡ path_length p
  unfolding enter_path
  length-enter_path none s dir e = ground (arith, e)
  length-enter_path (some p) s dir e = ground (arith, e)

  length-enter_month :
      (monthdir : Bool) (time dir : Bytes) (s : S) (dir' : Bytes)
      → 10 ≤ length time
      → (enter_month sys monthdir time dir s).0 ≡ some dir'
      → length dir' ≡ length dir + month_length monthdir
  unfolding enter_month
  length-enter_month false time dir s dir' h e = ground (arith, e)
  length-enter_month true time dir s dir' h e = ground (
    arith,
    e,
    length-append dir (take 7 time),
    length-take 7 time,
    length-append (dir ++ take 7 time) (47 ∷ []),
  )

  finish_name-length :
      (time text name : Bytes) (f : MyFileName)
      → 10 ≤ length time
      → finish_name time f text ≡ some name
      → (length text
            + prefix_length f.prefix
            + date_length f.use_cur_time
            + 1
            + prefix_length f.suffix
          ≤ length name)
        × (length name
            ≤ length text
              + prefix_length f.prefix
              + date_length f.use_cur_time
              + 1
              + prefix_length f.suffix
              + 1)
  unfolding finish_name
  finish_name-length time text name f h e =
      let start : Naming = record { text = text; name_len = 0 } in
      omega (
        arith,
        length-add_prefix f.prefix start,
        length-add_date f.use_cur_time time (add_prefix f.prefix start) h,
        length-add_suffix f.suffix (add_date f.use_cur_time time (add_prefix f.prefix start)) name
            e,
      )

  get_file_name-length :
      (monthdir : Bool) (time : Bytes) (f : MyFileName) (s : S) (name : Bytes)
      → 10 ≤ length time
      → (get_file_name sys monthdir time f s).0 ≡ some name
      → (name_bytes monthdir f ≤ length name) × (length name ≤ name_bytes monthdir f + 1)
  unfolding get_file_name
  get_file_name-length monthdir time f s name h e =
      elim (Option-cases (enter_path sys f.file_path s).0) [
        | inl no_dir ↦ ground (arith, no_dir, e)
        | inr (dir, path) ↦
            elim (Option-cases
              (enter_month sys monthdir time dir (enter_path sys f.file_path s).1).0) [
                | inl no_month ↦ ground (arith, path, no_month, e)
                | inr (text, month) ↦ omega (
                  arith,
                  length-enter_path f.file_path s dir path,
                  length-enter_month monthdir time dir (enter_path sys f.file_path s).1 text h
                      month,
                  finish_name-length time text name f h (rw (path, month, get_file_name) at e),
                )
              ]
      ]

  name_length :
      (monthdir : Bool) (t : LocalTime) (f : MyFileName) (s : S) (name : Bytes)
      → (get_file_name sys monthdir (get_cur_time t) f s).0 ≡ some name
      → (name_bytes monthdir f ≤ length name) × (length name ≤ name_bytes monthdir f + 1)
  name_length monthdir t f s name e =
      get_file_name-length monthdir (get_cur_time t) f s name (length-get_cur_time t) e

  -- openMyFile, where getFileName finds the directories and a name: with 50 characters or more in
  -- directory, month, prefix, date, dot and suffix, sprintf writes past the buffer on the stack.
  pub open_my_file_overruns :
      (monthdir : Bool) (t : LocalTime) (f : MyFileName) (s : S) (name : Bytes)
      → (get_file_name sys monthdir (get_cur_time t) f s).0 ≡ some name
      → name_room ≤ name_bytes monthdir f
      → open_my_file sys monthdir (get_cur_time t) f s ≡ none
  unfolding open_my_file
  open_my_file_overruns monthdir t f s name e long =
      let (least, most) = name_length monthdir t f s name e in
      rw (e, not_lt→ltb (length name) name_room (omega (arith, least, long)), open_my_file) refl

  -- openMyFile, where getFileName finds the directories and a name: with fewer than 49 characters in
  -- directory, month, prefix, date, dot and suffix the buffer is kept, and the answer is whether
  -- fopen works for that name and the mode asked for.
  pub open_my_file_fits :
      (monthdir : Bool) (t : LocalTime) (f : MyFileName) (s : S) (name : Bytes)
      → (get_file_name sys monthdir (get_cur_time t) f s).0 ≡ some name
      → name_bytes monthdir f < name_room - 1
      → let s' = (get_file_name sys monthdir (get_cur_time t) f s).1 in
        open_my_file sys monthdir (get_cur_time t) f s
        ≡ some (elim (sys.fopen s' name f.mode) as (λ _. Bool × S) [
          | none ↦ (false, s')
          | some s'' ↦ (true, s'')
        ])
  unfolding open_my_file
  open_my_file_fits monthdir t f s name e short =
      let (least, most) = name_length monthdir t f s name e in
      rw (e, lt→ltb (length name) name_room (omega (arith, most, short)), open_my_file) refl
