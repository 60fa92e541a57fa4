-- ===== src/Loading/Listing.antt =====
-- What a table of contents means for `LoadTOCFile`, with no fuel: the scripts that it and the tables in
-- it name, one after the other. A table that names itself has no listing.
use dpscalclua.Base.{
  ℕ, suc, ◌-◌, ◌≡◌, Bool, true, false, List, [], ◌∷◌, ◌++◌, Option, none, some, leb, ltb,
  if◌then◌else◌, length,
}
use dpscalclua.Double.{Double}
use dpscalclua.Store.{World, M, bad_index, pure, fail, ◌>>=◌}
use dpscalclua.Script.{Env}
use dpscalclua.Loading.{
  Code, max_string_length, read_lines, entry_of, is_comment, toc_suffix, has_part, path_of,
  run_lua_code,
}

-- A script by its path, a table that cannot be opened, a path that does not fit into the buffer.
pub data Item : Type 0 where
  script : List ℕ → Item
  absent : Item
  too_long : Item

abbrev pub is_too_long : List ℕ → Bool
is_too_long name = leb max_string_length (length (path_of name))

-- A line that names another table.
abbrev pub IsNested : List ℕ → Type 0
IsNested line =
    (is_comment line ≡ false)
    × (is_too_long (entry_of line) ≡ false)
    × (has_part toc_suffix (path_of (entry_of line)) ≡ true)

module _ (open_file : List ℕ → Option (List ℕ)) where
  mutual
    pub data Lists : List ℕ → List Item → Type 0 where
      overflows : {name : List ℕ} → is_too_long name ≡ true → Lists name (too_long ∷ [])
      cannot_open :
          {name : List ℕ}
          → is_too_long name ≡ false
          → open_file (path_of name) ≡ none
          → Lists name (absent ∷ [])
      opened :
          {name bytes : List ℕ} {items : List Item}
          → is_too_long name ≡ false
          → open_file (path_of name) ≡ some bytes
          → ListsLines (read_lines (max_string_length - 1) bytes) items
          → Lists name items

    pub data ListsLines : List (List ℕ) → List Item → Type 0 where
      end : ListsLines [] []
      comment :
          {line : List ℕ} {rest : List (List ℕ)} {items : List Item}
          → is_comment line ≡ true
          → ListsLines rest items
          → ListsLines (line ∷ rest) items
      long_line :
          {line : List ℕ} {rest : List (List ℕ)}
          → is_comment line ≡ false
          → is_too_long (entry_of line) ≡ true
          → ListsLines (line ∷ rest) (too_long ∷ [])
      nested :
          {line : List ℕ} {rest : List (List ℕ)} {items others : List Item}
          → IsNested line
          → Lists (entry_of line) items
          → ListsLines rest others
          → ListsLines (line ∷ rest) (items ++ others)
      named :
          {line : List ℕ} {rest : List (List ℕ)} {items : List Item}
          → is_comment line ≡ false
          → is_too_long (entry_of line) ≡ false
          → has_part toc_suffix (path_of (entry_of line)) ≡ false
          → ListsLines rest items
          → ListsLines (line ∷ rest) (script (path_of (entry_of line)) ∷ items)

abbrev pub max : ℕ → ℕ → ℕ
max a b = if ltb a b then b else a

-- The fuel that a listing needs: above its depth it is enough.
abbrev mutual
  pub depth : {f : List ℕ → Option (List ℕ)} {n : List ℕ} {items : List Item} → Lists f n items → ℕ
  depth (overflows h) = 0
  depth (cannot_open h e) = 0
  depth (opened h e d) = lines_depth d

  pub lines_depth :
      {f : List ℕ → Option (List ℕ)} {ls : List (List ℕ)} {items : List Item}
      → ListsLines f ls items
      → ℕ
  lines_depth end = 0
  lines_depth (comment h d) = lines_depth d
  lines_depth (long_line h g) = 0
  lines_depth (nested h d e) = max (suc (depth d)) (lines_depth e)
  lines_depth (named h g k d) = lines_depth d

module _ {D V L : Type 0} ⦃d : Double D⦄ (env : Env D V L) (code : Code V D L) where
  -- The scripts run in this order, until one fails.
  unfoldable pub run_items : List Item → M (World D L) Bool
  run_items [] = pure true
  run_items (absent ∷ rest) = pure false
  run_items (too_long ∷ rest) = fail bad_index
  run_items (script path ∷ rest) = do
    ok ← run_lua_code env code (code.load_file path)
    if ok then run_items rest else pure false
