-- ===== src/Map/Laws.antt =====
-- The laws of `std::map` that the components rest on.
use dpscalclua.Base.{ℕ, suc, ◌≤◌, ◌<◌, ◌≡◌, refl, [], ◌∷◌, none, some, arith, ◌==◌, if◌then◌else◌}
use dpscalclua.Map.{Map, find, insert, assign, erase, From}

module _ {ℓ} {V : Type ℓ} where
  pub From-mono : (lo hi : ℕ) (m : Map V) → lo ≤ hi → From hi m → From lo m
  From-mono lo hi [] h s = tt
  From-mono lo hi ((k, v) ∷ m) h s = (omega arith, s.1)

  -- What lies below the first key is not there.
  pub find_below : (k lo : ℕ) (m : Map V) → From lo m → k < lo → find k m ≡ none
  unfolding find
  find_below k lo [] s h = refl
  find_below k lo ((j, v) ∷ m) s h = ground (arith, find_below k (suc j) m s.1)

  pub From-insert :
      (k : ℕ) (v : V) (lo : ℕ) (m : Map V) → From lo m → lo ≤ k → From lo (insert k v m)
  unfolding insert
  From-insert k v lo [] s h = (h, tt)
  From-insert k v lo ((j, w) ∷ m) s h = ground (arith, From-insert k v (suc j) m s.1)

  pub From-assign : (k : ℕ) (v : V) (lo : ℕ) (m : Map V) → From lo m → From lo (assign k v m)
  unfolding assign
  From-assign k v lo [] s = tt
  From-assign k v lo ((j, w) ∷ m) s = ground (arith, From-assign k v (suc j) m s.1)

  pub From-erase : (k lo : ℕ) (m : Map V) → From lo m → From lo (erase k m)
  unfolding erase
  From-erase k lo [] s = tt
  From-erase k lo ((j, w) ∷ m) s =
      ground (arith, From-erase k (suc j) m s.1, From-mono lo (suc j) m (omega arith) s.1)

  pub find-insert_new :
      (j k : ℕ) (v : V) (m : Map V)
      → find k m ≡ none
      → find j (insert k v m) ≡ (if k == j then some v else find j m)
  unfolding find insert
  find-insert_new j k v [] e = refl
  find-insert_new j k v ((i, w) ∷ m) e = ground (arith, find-insert_new j k v m)

  pub find-insert_old :
      (k : ℕ) (v u : V) (lo : ℕ) (m : Map V) → From lo m → find k m ≡ some u → insert k v m ≡ m
  unfolding find insert
  find-insert_old k v u lo [] s e = ground arith
  find-insert_old k v u lo ((i, w) ∷ m) s e =
      ground (arith, find-insert_old k v u (suc i) m s.1, find_below k (suc i) m s.1)

  pub find-assign :
      (j k : ℕ) (v u : V) (m : Map V)
      → find k m ≡ some u
      → find j (assign k v m) ≡ (if k == j then some v else find j m)
  unfolding find assign
  find-assign j k v u [] e = ground arith
  find-assign j k v u ((i, w) ∷ m) e = ground (arith, find-assign j k v u m)

  pub find-erase :
      (j k lo : ℕ) (m : Map V)
      → From lo m
      → find j (erase k m) ≡ (if k == j then none else find j m)
  unfolding find erase
  find-erase j k lo [] s = ground arith
  find-erase j k lo ((i, w) ∷ m) s =
      ground (arith, find-erase j k (suc i) m s.1, find_below j (suc i) m s.1)
