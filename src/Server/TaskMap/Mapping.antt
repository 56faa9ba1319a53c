-- ===== src/Server/TaskMap/Mapping.antt =====
-- What a TaskMap (audioserver/AudioDataUnit.h) is to its callers: a mapping from identifiers to
-- nodes. How the nodes are kept, and in which order they came, is forgotten.
use mathlib.Core.Quot
use mathlib.Core.Quot.{Quot, Quot-set}
use mathlib.Core.Option
use native.Mathlib.Nat.{ℕ_set}
use epoll_based_fault_diagno.Base.{ℕ, ◌≡◌, ◌≢◌, ap, ◌∙◌, Option, some, ◌==◌, if◌then◌else◌, arith}
use epoll_based_fault_diagno.Server.TaskMap.{
  TaskMap, add_new_node, get_node_by_id, get_node_by_id-add_new_node,
}

abbrev node_of : TaskMap ℕ → ℕ → Option ℕ
node_of m id = (get_node_by_id m id).0

-- Two maps lead from every identifier to the same node.
abbrev SameNodes : TaskMap ℕ → TaskMap ℕ → Type 0
SameNodes m n = (id : ℕ) → node_of m id ≡ node_of n id

abbrev pub Mapping : Type 0
Mapping = Quot SameNodes

node_of-add :
    (id node j : ℕ) (m : TaskMap ℕ)
    → node_of (add_new_node id node m) j ≡ (if id == j then some node else node_of m j)
node_of-add id node j m = ap (λ x. x.0) (get_node_by_id-add_new_node id j node m).0 ∙ ground arith

-- getNodeByID and addNewNode of the mapping that a map stands for.
unfoldable pub node_at : ℕ → Mapping → Option ℕ
node_at id = Quot.lift (Option.is_set ℕ_set) (λ m. node_of m id) (λ m n same. same id)

pub same-add :
    (id node : ℕ) (m n : TaskMap ℕ)
    → SameNodes m n
    → SameNodes (add_new_node id node m) (add_new_node id node n)
same-add id node m n same j =
    ground (arith, node_of-add id node j m, node_of-add id node j n, same j)

unfoldable pub put : ℕ → ℕ → Mapping → Mapping
put id node =
    Quot.lift Quot-set (λ m. Quot.mk (add_new_node id node m))
      (λ m n same. Quot.sound (same-add id node m n same))

same-swapped :
    (id a id' b : ℕ) (m : TaskMap ℕ)
    → id ≢ id'
    → SameNodes
        (add_new_node id a (add_new_node id' b m))
        (add_new_node id' b (add_new_node id a m))
same-swapped id a id' b m other j = ground (
  arith,
  node_of-add id a j (add_new_node id' b m),
  node_of-add id' b j m,
  node_of-add id' b j (add_new_node id a m),
  node_of-add id a j m,
)

same-replaced :
    (id a b : ℕ) (m : TaskMap ℕ)
    → SameNodes (add_new_node id a (add_new_node id b m)) (add_new_node id a m)
same-replaced id a b m j =
    ground
      (arith, node_of-add id a j (add_new_node id b m), node_of-add id b j m, node_of-add id a j m)

-- addNewNode and getNodeByID work on the mapping that a map stands for, whatever its order. In it,
-- two nodes for different identifiers may be added in either order, a second node for an identifier
-- replaces the first, the identifier then leads to the node that was added last, and all others lead
-- where they led before.
pub put_lem :
    (id id' a b : ℕ) (m : Mapping)
    → id ≢ id'
    → (put id a (put id' b m) ≡ put id' b (put id a m))
      × (put id a (put id b m) ≡ put id a m)
      × (node_at id (put id a m) ≡ some a)
      × (node_at id' (put id a m) ≡ node_at id' m)
unfolding put node_at
put_lem id id' a b m other = (
  Quot.ind {β = λ m. put id a (put id' b m) ≡ put id' b (put id a m)} (λ m. Quot-set _ _)
      (λ m. Quot.sound (same-swapped id a id' b m other)) m,
  Quot.ind {β = λ m. put id a (put id b m) ≡ put id a m} (λ m. Quot-set _ _)
      (λ m. Quot.sound (same-replaced id a b m)) m,
  Quot.ind {β = λ m. node_at id (put id a m) ≡ some a} (λ m. Option.is_set ℕ_set _ _)
      (λ m. ground (arith, node_of-add id a id m)) m,
  Quot.ind {β = λ m. node_at id' (put id a m) ≡ node_at id' m} (λ m. Option.is_set ℕ_set _ _)
      (λ m. ground (arith, node_of-add id a id' m)) m,
)
