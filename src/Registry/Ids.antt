-- ===== src/Registry/Ids.antt =====
-- Maps whose keys are the ids given out so far.
use dpscalclua.Base.{ℕ, suc, ◌≤◌, ◌<◌, ◌≡◌, refl, [], ◌∷◌, none, arith}
use dpscalclua.Map.{Map, find, insert}

-- The ids run from 1 to the counter.
abbrev pub UpTo : {V : Type 0} → ℕ → Map V → Type 0
UpTo n [] = Unit {0}
UpTo n ((k, v) ∷ m) = (k ≤ n) × UpTo n m

pub UpTo-find : {V : Type 0} (n k : ℕ) (m : Map V) → UpTo n m → n < k → find k m ≡ none
unfolding find
UpTo-find n k [] h lt = refl
UpTo-find n k ((j, v) ∷ m) h lt = ground (arith, UpTo-find n k m h.1 lt)

pub UpTo-insert :
    {V : Type 0} (n k : ℕ) (v : V) (m : Map V) → UpTo n m → k ≡ suc n → UpTo k (insert k v m)
unfolding insert
UpTo-insert n k v [] h e = (omega arith, tt)
UpTo-insert n k v ((j, w) ∷ m) h e = ground (arith, UpTo-insert n k v m h.1 e)
