-- ===== src/Map.antt =====
-- `std::map` with `uint32` keys (or any numbers): the pairs in ascending order of the keys.
pub mod Laws
use dpscalclua.Base.{ℕ, suc, ◌≤◌, List, [], ◌∷◌, Option, none, some, ltb, ◌==◌, if◌then◌else◌}

abbrev pub Map {ℓ} : Type ℓ → Type ℓ
Map V = List (ℕ × V)

module _ {ℓ} {V : Type ℓ} where
  unfoldable pub find : ℕ → Map V → Option V
  find k [] = none
  find k ((j, v) ∷ m) = if j == k then some v else find k m

  -- `insert` leaves an entry with the same key as it is.
  unfoldable pub insert : ℕ → V → Map V → Map V
  insert k v [] = (k, v) ∷ []
  insert k v ((j, w) ∷ m) =
      let rest = insert k v m in
      if k == j then (j, w) ∷ m else if ltb k j then (k, v) ∷ (j, w) ∷ m else (j, w) ∷ rest

  -- A write through the iterator of `find`.
  unfoldable pub assign : ℕ → V → Map V → Map V
  assign k v [] = []
  assign k v ((j, w) ∷ m) = if j == k then (j, v) ∷ m else (j, w) ∷ assign k v m

  unfoldable pub erase : ℕ → Map V → Map V
  erase k [] = []
  erase k ((j, w) ∷ m) = if j == k then m else (j, w) ∷ erase k m

  -- The keys ascend strictly, from `lo` on.
  abbrev pub From : ℕ → Map V → Type 0
  From lo [] = Unit {0}
  From lo ((k, v) ∷ m) = (lo ≤ k) × From (suc k) m

  abbrev pub IsSorted : Map V → Type 0
  IsSorted m = From 0 m
