-- ===== src/Tests/Naming.antt =====
-- Names of files, and places in the source.
use epoll_based_fault_diagno.Base.{
  ℕ, ◌≡◌, ◌≤◌, refl, true, [], ◌∷◌, ◌++◌, Bytes, none, some, replicate, arith,
}
use epoll_based_fault_diagno.Paths.{with_slash}
use epoll_based_fault_diagno.Files.{
  LocalTime, MyFileName, FileSys, padded, digits_of, get_cur_time, get_file_name, open_my_file,
  enter_path, enter_month, access_my_dir, finish_name, add_prefix, add_date, add_suffix, name_room,
}
use epoll_based_fault_diagno.Files.Names.{name_bytes, open_my_file_overruns}

abbrev spring : LocalTime
spring = record { tm_year = 122; tm_mon = 3; tm_mday = 5; sec = 3661; tv_usec = 5000 }

-- A directory of twelve characters, and a prefix of twenty.
abbrev long_name : MyFileName
long_name = record {
  file_path = some (replicate 12 97);
  prefix = some (replicate 20 98);
  use_cur_time = true;
  suffix = some (108 ∷ 111 ∷ 103 ∷ []);
  mode = 97 ∷ 43 ∷ [];
}

-- A system in which every directory is there and no file opens.
abbrev quiet_sys : FileSys ℕ
quiet_sys = record {
  opendir = λ s d. true;
  mkdir = λ s d. none;
  fopen = λ s n m. none;
  st_size = λ s n. none;
  entries = λ s d. [];
  chdir = λ s d. s;
}

abbrev built_name : Bytes
built_name =
    (replicate 12 97 ++ (47 ∷ (50 ∷ 48 ∷ 50 ∷ 50 ∷ 45 ∷ 48 ∷ 52 ∷ 47 ∷ [])))
    ++ (replicate 20 98
        ++ (95 ∷ 50 ∷ 48 ∷ 50 ∷ 50 ∷ 45 ∷ 48 ∷ 52 ∷ 45 ∷ 48 ∷ 53 ∷ 46 ∷ 108 ∷ 111 ∷ 103 ∷ []))

built : (get_file_name quiet_sys true (get_cur_time spring) long_name 0).0 ≡ some built_name
unfolding get_file_name enter_path enter_month access_my_dir finish_name add_prefix add_date
    add_suffix get_cur_time padded digits_of with_slash
built = refl

long : name_room ≤ name_bytes true long_name
unfolding with_slash
long = omega arith

open_my_file_overruns_example : open_my_file quiet_sys true (get_cur_time spring) long_name 0 ≡ none
open_my_file_overruns_example =
    open_my_file_overruns quiet_sys true spring long_name 0 built_name built long
