-- ===== src/Server/TaskMap.antt =====
-- The template TaskMap of audioserver/AudioDataUnit.h: a std::map under a mutex, which makes each
-- operation one step. A node is a pointer, so `none` is nullptr.
pub mod Mapping
use epoll_based_fault_diagno.Base.{
  ℕ, ◌≡◌, refl, Bool, true, false, List, [], ◌∷◌, Option, none, some, arith, ℤ, pos, negsuc, ◌==◌,
  if◌then◌else◌, Bool-cases, inl, inr,
}

pub record TaskMap {ℓ} (T : Type ℓ) : Type ℓ where
  pub nodes : List (ℕ × T)

module _ {ℓ} {T : Type ℓ} where
  unfoldable pub empty : TaskMap T
  empty = record { nodes = [] }

  find : List (ℕ × T) → ℕ → Option T
  find [] id = none
  find ((k, v) ∷ m) id = if k == id then some v else find m id

  assign : List (ℕ × T) → ℕ → T → List (ℕ × T)
  assign [] id node = (id, node) ∷ []
  assign ((k, v) ∷ m) id node = if k == id then (k, node) ∷ m else (k, v) ∷ assign m id node

  unfoldable pub add_new_node : ℕ → T → TaskMap T → TaskMap T
  unfolding assign
  add_new_node id node m = record { nodes = assign m.nodes id node }

  unfoldable pub is_exist : TaskMap T → ℕ → Bool
  unfolding find
  is_exist m id = elim (find m.nodes id) [ none ↦ false | some v ↦ true ]

  -- The node, and the status: 0, or -1 where there is none.
  unfoldable pub get_node_by_id : TaskMap T → ℕ → Option T × ℤ
  unfolding find
  get_node_by_id m id =
      (find m.nodes id, elim (find m.nodes id) [ none ↦ negsuc 0 | some v ↦ pos 0 ])

  find-assign :
      (m : List (ℕ × T)) (id j : ℕ) (node : T)
      → find (assign m id node) j ≡ (if id == j then some node else find m j)
  unfolding find assign
  find-assign [] id j node = refl
  find-assign ((k, v) ∷ m) id j node = ground (arith, find-assign m id j node)

  get-add :
      (id j : ℕ) (node : T) (m : TaskMap T)
      → get_node_by_id (add_new_node id node m) j
        ≡ (if id == j then (some node, pos 0) else get_node_by_id m j)
  unfolding get_node_by_id add_new_node
  get-add id j node m =
      rw (find-assign m.nodes id j node)
        (elim (Bool-cases (id == j)) [ inl same ↦ rw same refl | inr other ↦ rw other refl ])

  exist-add :
      (id j : ℕ) (node : T) (m : TaskMap T)
      → is_exist (add_new_node id node m) j ≡ (if id == j then true else is_exist m j)
  unfolding is_exist add_new_node
  exist-add id j node m =
      rw (find-assign m.nodes id j node, is_exist)
        (elim (Bool-cases (id == j)) [ inl same ↦ rw same refl | inr other ↦ rw other refl ])

  -- After `addNewNode` the id leads to the new node, whatever stood there; all other ids lead where
  -- they led before, and status and `isExist` agree with that.
  pub get_node_by_id-add_new_node :
      (id j : ℕ) (node : T) (m : TaskMap T)
      → (get_node_by_id (add_new_node id node m) j
          ≡ (if id == j then (some node, pos 0) else get_node_by_id m j))
        × (is_exist (add_new_node id node m) j ≡ (if id == j then true else is_exist m j))
  get_node_by_id-add_new_node id j node m = (get-add id j node m, exist-add id j node m)
