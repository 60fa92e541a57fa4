-- ===== src/Loading.antt =====
-- `LoadTOCFile` and `RunLuaCode` of `DPSCalc/LuaIntergration.cpp`: a table of contents is read line by
-- line, a line names a script or another table. What the files hold and what Lua makes of them are
-- parameters. Texts are lists of bytes here.
pub mod Listing
pub mod Refines
pub mod Ends
pub mod Written
use dpscalclua.Base.{
  ℕ, zero, suc, ◌-◌, Bool, true, false, ◌||◌, ◌&&◌, List, [], ◌∷◌, Option, none, some, leb, ◌==◌,
  if◌then◌else◌, length, String,
}
use dpscalclua.Double.{Double}
use dpscalclua.Store.{World, M, bad_index, pure, fail, get, on_option, ◌>>=◌}
use dpscalclua.Script.{Env, Prog}
use dpscalclua.Lua.Dispatch.{run_prog}

-- What the operating system and Lua give: whether `lua_open` works and the new state, the contents of
-- the files that `fopen` opens, what `luaL_loadfile` makes of a path, what `luaL_loadstring` makes of the
-- two pieces of code that are passed in, the code `dps=...`, and `strcmp(...) < 0`, and what `%f` prints.
-- Loading a chunk may fail; what it does when it runs depends on the state of Lua. The files stay as they
-- are while they are loaded.
pub record Code (V D L : Type 0) : Type 0 where
  pub opens : Bool
  pub fresh : L
  pub open_file : List ℕ → Option (List ℕ)
  pub load_file : List ℕ → Option (L → Prog V D L)
  pub preload : Option (L → Prog V D L)
  pub additional : Option (L → Prog V D L)
  pub dps : ℕ → L → Prog V D L
  pub less : String → String → Bool
  pub print_float : D → List ℕ

abbrev pub max_string_length : ℕ
max_string_length = 256

abbrev pub line_feed : ℕ
line_feed = 10

abbrev pub carriage_return : ℕ
carriage_return = 13

abbrev pub with_first : ℕ → List (List ℕ) → List (List ℕ)
with_first c [] = (c ∷ []) ∷ []
with_first c (l ∷ ls) = (c ∷ l) ∷ ls

-- What `fgets` reads until `feof`: each time up to a line feed or until the buffer is full. `room` is
-- what is left of the buffer.
unfoldable pub read_lines : (room : ℕ) → List ℕ → List (List ℕ)
read_lines room [] = []
read_lines room (c ∷ cs) =
    let ends = c == line_feed || leb room 1 in
    let more = read_lines (if ends then max_string_length - 1 else room - 1) cs in
    if ends then (c ∷ []) ∷ more else with_first c more

-- `if (p = strstr(Buffer, "\r")) *p = 0`, and what a C string is of a buffer.
unfoldable pub until_byte : ℕ → List ℕ → List ℕ
until_byte c [] = []
until_byte c (x ∷ xs) = if x == c then [] else x ∷ until_byte c xs

-- The line as the program uses it.
unfoldable pub entry_of : List ℕ → List ℕ
unfolding until_byte
entry_of line = until_byte line_feed (until_byte carriage_return (until_byte 0 line))

unfoldable pub is_comment : List ℕ → Bool
is_comment [] = false
is_comment (c ∷ cs) = c == b'#'

abbrev pub starts_with : List ℕ → List ℕ → Bool
starts_with [] s = true
starts_with (p ∷ ps) [] = false
starts_with (p ∷ ps) (c ∷ cs) = p == c && starts_with ps cs

-- `strstr(s, part) != NULL`.
unfoldable pub has_part : List ℕ → List ℕ → Bool
has_part part [] = starts_with part []
has_part part (c ∷ cs) = starts_with part (c ∷ cs) || has_part part cs

abbrev pub toc_suffix : List ℕ
toc_suffix = b'.' ∷ b't' ∷ b'o' ∷ b'c' ∷ []

abbrev pub main_toc : List ℕ
main_toc = b'm' ∷ b'a' ∷ b'i' ∷ b'n' ∷ toc_suffix

unfoldable pub path_of : List ℕ → List ℕ
path_of name = b'l' ∷ b'u' ∷ b'a' ∷ b'\\' ∷ name

module _ {D L : Type 0} where
  -- `sprintf(ScriptToLoad, "lua\\%s", ...)`; a longer path is written beyond the buffer.
  unfoldable pub script_path : List ℕ → M (World D L) (List ℕ)
  unfolding path_of
  script_path name =
      if leb max_string_length (length (path_of name)) then fail bad_index else pure (path_of name)

  -- The early `return false`.
  unfoldable pub unless_failed :
      Option Bool → M (World D L) (Option Bool) → M (World D L) (Option Bool)
  unless_failed (some true) next = next
  unless_failed (some false) next = pure (some false)
  unless_failed none next = pure none

module _ {D V L : Type 0} ⦃d : Double D⦄ (env : Env D V L) (code : Code V D L) where
  -- `RunLuaCode`, and the same for a file.
  unfoldable pub run_lua_code : Option (L → Prog V D L) → M (World D L) Bool
  run_lua_code none = pure false
  run_lua_code (some p) = do w ← get; run_prog env (p w.lua)

  -- One line; `load` is the call of `LoadTOCFile`. A path is never empty, so the test of `strlen` is
  -- always true.
  unfoldable pub load_line :
      (List ℕ → M (World D L) (Option Bool)) → List ℕ → M (World D L) (Option Bool)
  load_line load line = if is_comment line then pure (some true) else (do
    path ← script_path (entry_of line)
    if has_part toc_suffix path
        then load (entry_of line)
        else (do ok ← run_lua_code (code.load_file path); pure (some ok)))

  unfoldable pub load_lines :
      (List ℕ → M (World D L) (Option Bool)) → List (List ℕ) → M (World D L) (Option Bool)
  load_lines load [] = pure (some true)
  load_lines load (line ∷ rest) = do r ← load_line load line; unless_failed r (load_lines load rest)

  -- `LoadTOCFile`. The fuel bounds the nesting; `none` means that it ran out.
  unfoldable pub load_toc : (fuel : ℕ) → List ℕ → M (World D L) (Option Bool)
  load_toc zero name = pure none
  load_toc (suc fuel) name = do
    path ← script_path name
    on_option (code.open_file path) (pure (some false))
        λ bytes. load_lines (load_toc fuel) (read_lines (max_string_length - 1) bytes)
