-- ===== src/Server/Epoll/Reconnect.antt =====
-- What a second connection from the same address does.
use Prim.Native.Nat.{◌<◌, ◌+◌}
use epoll_based_fault_diagno.Base.{
  ◌≡◌, ◌∙◌, refl, [], ◌∷◌, ◌++◌, Bytes, some, pos, length, get_elem?, arith, length-append, eq→==,
  ℕ, Bytes, List, suc, zero, if◌then◌else◌, ap,
}
use epoll_based_fault_diagno.Server.Conn.{Conn}
use epoll_based_fault_diagno.Server.TaskMap.{get_node_by_id, get_node_by_id-add_new_node}
use epoll_based_fault_diagno.Server.Epoll.{Accepted, Server, accept_one, ctl_add}

module _ {ℓ} {A : Type ℓ} where
  get_elem?-before :
      (xs ys : List A) (p : ℕ) → p < length xs → get_elem? (xs ++ ys) p ≡ get_elem? xs p
  get_elem?-before [] ys p below = ground arith
  get_elem?-before (x ∷ xs) ys zero below = refl
  get_elem?-before (x ∷ xs) ys (suc p) below = get_elem?-before xs ys p (omega arith)

-- Whatever the map holds for the address of a new connection, a connection open to the same address
-- included, the loop takes it for a new one. All earlier EpollMateData stay as they are, so none is
-- closed, the only call it makes is the registration of the new socket, the new EpollMateData is the
-- last one, and the map now leads from the address to it: the earlier one is no longer found.
pub accept_one_adds :
    (mem : ℕ → Bytes) (raw : Conn) (a : Accepted) (s : Server)
    → ((p : ℕ)
        → p < length s.mates
        → get_elem? (accept_one mem raw a s).mates p ≡ get_elem? s.mates p)
      × (length (accept_one mem raw a s).mates ≡ length s.mates + 1)
      × ((accept_one mem raw a s).trace ≡ s.trace ++ (ctl_add (pos a.infd) ∷ []))
      × (get_node_by_id (accept_one mem raw a s).trans_map a.in_ip ≡ (some (length s.mates), pos 0))
unfolding accept_one
accept_one_adds mem raw a s = (
  get_elem?-before s.mates _,
  length-append s.mates _,
  refl,
  (get_node_by_id-add_new_node a.in_ip a.in_ip (length s.mates) s.trans_map).0
      ∙ ap
          (λ same.
            if same then (some (length s.mates), pos 0) else get_node_by_id s.trans_map a.in_ip)
          (eq→== a.in_ip a.in_ip refl),
)
