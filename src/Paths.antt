-- ===== src/Paths.antt =====
-- myMakeDir of audioserver/global.cpp, which the client has a copy of in ClientManage.cpp, over a file
-- system that is the list of the directories that are there.
use epoll_based_fault_diagno.Base.{
  ℕ, ◌-◌, ◌≡◌, refl, ap, ◌∙◌, Bool, true, false, ◌||◌, List, [], ◌∷◌, ◌++◌, Bytes, ℤ, pos, negsuc,
  length, get_or, take, drop, ◌==◌, if◌then◌else◌, if-cases, arith, ==→eq, length-append,
}
use epoll_based_fault_diagno.Text.{same}

-- access(dir, 0) == 0
unfoldable pub access : List Bytes → Bytes → Bool
unfolding same
access [] dir = false
access (d ∷ fs) dir = let rest = access fs dir in same d dir || rest

-- The path with a slash at its end.
unfoldable pub with_slash : Bytes → Bytes
with_slash path = if get_or path (length path - 1) 0 == 47 then path else path ++ (47 ∷ [])

get_or-last : (xs : Bytes) (c : ℕ) → get_or (xs ++ (c ∷ [])) (length xs) 0 ≡ c
get_or-last [] c = refl
get_or-last (x ∷ xs) c = get_or-last xs c

pub with_slash-last :
    (path : Bytes) → get_or (with_slash path) (length (with_slash path) - 1) 0 ≡ 47
unfolding with_slash
with_slash-last path =
    if-cases (λ p. get_or p (length p - 1) 0 ≡ 47) (get_or path (length path - 1) 0 == 47) path
      (path ++ (47 ∷ [])) (λ slash. ==→eq (get_or path (length path - 1) 0) 47 slash)
      (λ other.
        ap (λ n. get_or (path ++ (47 ∷ [])) n 0) (omega (arith, length-append path (47 ∷ [])))
        ∙ get_or-last path 47)

module _ (mkdir : Bytes → Bool) where
  -- The body of the loop where the path has a slash: false where mkdir fails.
  unfoldable pub ensure_dir : Bytes → List Bytes → Bool × List Bytes
  unfolding access
  ensure_dir dir fs =
      if access fs dir then (true, fs) else (if mkdir dir then (true, dir ∷ fs) else (false, fs))

  -- `for (i = 1; i < len; i++)`, with the characters before `i` and from there on.
  unfoldable pub make_from : Bytes → Bytes → List Bytes → ℤ × List Bytes
  unfolding ensure_dir
  make_from before [] fs = (pos 0, fs)
  make_from before (c ∷ path) fs =
      let (ok, fs') = ensure_dir before fs in
      let made = make_from (before ++ (c ∷ [])) path fs' in
      let passed = make_from (before ++ (c ∷ [])) path fs in
      if c == 47 then (if ok then made else (negsuc 0, fs')) else passed

  unfoldable pub my_make_dir : Bytes → List Bytes → ℤ × List Bytes
  unfolding with_slash make_from
  my_make_dir path fs = make_from (take 1 (with_slash path)) (drop 1 (with_slash path)) fs

-- All directories of the one are in the other.
unfoldable pub Within : List Bytes → List Bytes → Type 0
Within fs fs' = (d : Bytes) → access fs d ≡ true → access fs' d ≡ true

-- What is there when the loop has passed `path`, the rest of a path that begins with `before`: each
-- directory on the way, and all that was there.
pub record Made (before path : Bytes) (fs : List Bytes) (r : ℤ × List Bytes) : Type 0 where
  pub code : r.0 ≡ pos 0
  pub on_the_way : (xs ys : Bytes) → path ≡ xs ++ (47 ∷ ys) → access r.1 (before ++ xs) ≡ true
  pub kept : Within fs r.1
