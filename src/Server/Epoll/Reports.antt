-- ===== src/Server/Epoll/Reports.antt =====
-- What epoll_wait promises to EpollServer::epollRun (audioserver/EpollServer.cpp), and what handling an
-- event leaves of it.
use epoll_based_fault_diagno.Base.{
  ℕ, suc, ◌<◌, ◌≡◌, ◌≢◌, refl, sym, ap, ◌∙◌, Bool, true, false, List, [], ◌∷◌, ◌++◌, Bytes, Option,
  none, some, ℤ, is_neg, get_elem?, get_elem?-set, get_elem?-concat_cases, get_or, get_or-set, set,
  map, arith, Bool-cases, Option-cases, inl, inr,
}
use epoll_based_fault_diagno.Server.Conn.{Conn}
use epoll_based_fault_diagno.Server.Epoll.{
  Accepted, Callback, Event, Server, incoming, ready, accept_one, accept_all, after_callback,
  close_mate, dispatch, on_ready,
}

-- The socket of the connection, if it is one, is open.
unfoldable pub LiveAt : ℕ → Server → Type 0
LiveAt p s = (c : Conn) → get_elem? s.mates p ≡ some c → is_neg c.fd ≡ false

-- No event of the batch is one of connection `p`.
unfoldable pub Elsewhere : ℕ → List (Option ℕ × Event) → Type 0
Elsewhere p [] = Unit {0}
Elsewhere p ((q, incoming accepted) ∷ rest) = Elsewhere p rest
Elsewhere p ((none, ready inn out err) ∷ rest) = Elsewhere p rest
Elsewhere p ((some q, ready inn out err) ∷ rest) = (p ≢ q) × Elsewhere p rest

-- What epoll_wait reports: sockets that are registered, so open, each at most once.
unfoldable pub Reports : Server → List (Option ℕ × Event) → Type 0
Reports s [] = Unit {0}
Reports s ((q, incoming accepted) ∷ rest) = Reports s rest
Reports s ((none, ready inn out err) ∷ rest) = Reports s rest
Reports s ((some p, ready inn out err) ∷ rest) = LiveAt p s × Elsewhere p rest × Reports s rest

-- The slots from `i` on are those of the batch.
unfoldable pub Aligned : ℕ → List (Option ℕ × Event) → List (Option ℕ) → Type 0
Aligned i [] slots = Unit {0}
Aligned i ((q, ev) ∷ rest) slots = (get_or slots i none ≡ q) × Aligned (suc i) rest slots

Aligned-suc :
    (i : ℕ) (batch : List (Option ℕ × Event)) (x : Option ℕ) (slots : List (Option ℕ))
    → Aligned i batch slots
    → Aligned (suc i) batch (x ∷ slots)
unfolding Aligned
Aligned-suc i [] x slots v = tt
Aligned-suc i ((q, ev) ∷ rest) x slots (at, more) = (at, Aligned-suc (suc i) rest x slots more)

pub Aligned-start :
    (batch : List (Option ℕ × Event)) (old : List (Option ℕ))
    → Aligned 0 batch (map (λ entry. entry.0) batch ++ old)
unfolding Aligned
Aligned-start [] old = tt
Aligned-start ((q, ev) ∷ rest) old =
    (refl, Aligned-suc 0 rest q (map (λ entry. entry.0) rest ++ old) (Aligned-start rest old))

Aligned-set :
    (i j : ℕ) (batch : List (Option ℕ × Event)) (slots : List (Option ℕ)) (v : Option ℕ)
    → j < i
    → Aligned i batch slots
    → Aligned i batch (set slots j v)
unfolding Aligned
Aligned-set i j [] slots v before a = tt
Aligned-set i j ((q, ev) ∷ rest) slots v before (at, more) = (
  get_or-set slots j i v none (λ same. omega (arith, same, before)) ∙ at,
  Aligned-set (suc i) j rest slots v (omega (arith, before)) more,
)

-- What a handled event leaves alone: the connections but `p`, and the slots behind `i`.
pub record Spares (i p : ℕ) (s s' : Server) : Type 0 where
  pub same_mates : (q : ℕ) → p ≢ q → get_elem? s'.mates q ≡ get_elem? s.mates q
  pub same_slots :
      (batch : List (Option ℕ × Event))
      → Aligned (suc i) batch s.slots
      → Aligned (suc i) batch s'.slots

pub Spares-refl : (i p : ℕ) (s : Server) → Spares i p s s
Spares-refl i p s = record { same_mates = λ q other. refl; same_slots = λ batch a. a }

pub close_mate-Spares :
    (i p flag : ℕ) (c : Conn) (s : Server) → Spares i p s (close_mate i p flag c s)
unfolding close_mate
close_mate-Spares i p flag c s = record {
  same_mates = λ q other. get_elem?-set s.mates p q _ other;
  same_slots = λ batch a. Aligned-set (suc i) i batch s.slots none (omega arith) a;
}

pub after_callback-Spares :
    (i p flag : ℕ) (result : ℤ × Conn) (s : Server)
    → Spares i p s (after_callback i p flag result s)
unfolding after_callback
after_callback-Spares i p flag result s = elim (Bool-cases (is_neg result.0)) [
  | inl below ↦ rw below (close_mate-Spares i p flag result.1 s)
  | inr fine ↦ rw fine record {
    same_mates = λ q other. get_elem?-set s.mates p q _ other;
    same_slots = λ batch a. a;
  }
]

-- What holds of every open connection holds when some more are accepted.
accept_one-LiveAt :
    (mem : ℕ → Bytes) (raw : Conn) (a : Accepted) (s : Server) (p : ℕ)
    → LiveAt p s
    → LiveAt p (accept_one mem raw a s)
unfolding LiveAt accept_one
accept_one-LiveAt mem raw a s p live c at = elim (get_elem?-concat_cases s.mates _ p c at) [
  | inl before ↦ live c before
  | inr here ↦ ap (λ (x : Conn). is_neg x.fd) (sym here)
]

pub accept_all-LiveAt :
    (mem : ℕ → Bytes) (raw : Conn) (accepted : List Accepted) (s : Server) (p : ℕ)
    → LiveAt p s
    → LiveAt p (accept_all mem raw accepted s)
unfolding accept_all
accept_all-LiveAt mem raw [] s p live = live
accept_all-LiveAt mem raw (a ∷ more) s p live =
    accept_all-LiveAt mem raw more (accept_one mem raw a s) p (accept_one-LiveAt mem raw a s p live)

pub accept_all-slots :
    (mem : ℕ → Bytes) (raw : Conn) (accepted : List Accepted) (s : Server)
    → (accept_all mem raw accepted s).slots ≡ s.slots
unfolding accept_all accept_one
accept_all-slots mem raw [] s = refl
accept_all-slots mem raw (a ∷ more) s = accept_all-slots mem raw more (accept_one mem raw a s)

pub Reports-mono :
    (s s' : Server) (batch : List (Option ℕ × Event))
    → ((p : ℕ) → LiveAt p s → LiveAt p s')
    → Reports s batch
    → Reports s' batch
unfolding Reports
Reports-mono s s' [] keeps v = tt
Reports-mono s s' ((q, incoming accepted) ∷ rest) keeps v = Reports-mono s s' rest keeps v
Reports-mono s s' ((none, ready inn out err) ∷ rest) keeps v = Reports-mono s s' rest keeps v
Reports-mono s s' ((some p, ready inn out err) ∷ rest) keeps (live, once, v) =
    (keeps p live, once, Reports-mono s s' rest keeps v)

pub Reports-Spares :
    (i p : ℕ) (s s' : Server) (batch : List (Option ℕ × Event))
    → Spares i p s s'
    → Elsewhere p batch
    → Reports s batch
    → Reports s' batch
unfolding Reports Elsewhere LiveAt
Reports-Spares i p s s' [] spares away v = tt
Reports-Spares i p s s' ((q, incoming accepted) ∷ rest) spares away v =
    Reports-Spares i p s s' rest spares away v
Reports-Spares i p s s' ((none, ready inn out err) ∷ rest) spares away v =
    Reports-Spares i p s s' rest spares away v
Reports-Spares i p s s' ((some q, ready inn out err) ∷ rest) spares (other, away) (live, once, v) =
    (
      λ c at. live c (sym (spares.same_mates q other) ∙ at),
      once,
      Reports-Spares i p s s' rest spares away v,
    )

module _ {W : Type 0} (read_cb write_cb : Callback W) where
  pub dispatch-Spares :
      (i p : ℕ) (c : Conn) (inn out err : Bool) (t : W × Server)
      → Spares i p t.1 (dispatch read_cb write_cb i p c inn out err t).1
  unfolding dispatch
  dispatch-Spares i p c true out err (w, s) = after_callback-Spares i p 256 (read_cb c w).0 s
  dispatch-Spares i p c false true err (w, s) = after_callback-Spares i p 512 (write_cb c w).0 s
  dispatch-Spares i p c false false true (w, s) = close_mate-Spares i p 1024 c s
  dispatch-Spares i p c false false false (w, s) = Spares-refl i p s

  pub on_ready-Spares :
      (i p : ℕ) (inn out err : Bool) (t : W × Server)
      → Spares i p t.1 (on_ready read_cb write_cb i (some p) inn out err t).1
  unfolding on_ready
  on_ready-Spares i p inn out err t = elim (Option-cases (get_elem? t.1.mates p)) [
    | inl missing ↦ rw (missing, on_ready) (Spares-refl i p t.1)
    | inr (c, there) ↦ rw (there, on_ready) (dispatch-Spares i p c inn out err t)
  ]
