-- ===== src/Loading/Refines.antt =====
-- `LoadTOCFile` does what the listing of the table says.
use dpscalclua.Base.{
  ℕ, zero, suc, ◌≤◌, ◌<◌, ◌≡◌, refl, sym, ap, ◌∙◌, Bool, true, false, List, [], ◌∷◌, ◌++◌, Option,
  some, arith, if◌then◌else◌,
}
use dpscalclua.Double.{Double}
use dpscalclua.Store.{World, M, Outcome, bad_index, done, fault, after, pure, ◌>>=◌}
use dpscalclua.Script.{Env}
use dpscalclua.Loading.{
  Code, is_comment, has_part, toc_suffix, path_of, entry_of, script_path, unless_failed,
  run_lua_code, load_line, load_lines, load_toc,
}
use dpscalclua.Loading.Listing.{
  Item, script, absent, too_long, Lists, overflows, cannot_open, opened, ListsLines, end, comment,
  long_line, nested, named, IsNested, is_too_long, depth, lines_depth, run_items,
}

-- The answer of `LoadTOCFile` where the fuel is enough.
abbrev pub answered : {S : Type 0} → M S Bool → M S (Option Bool)
answered m = m >>= λ ok. pure (some ok)

module _ {D V L : Type 0} ⦃d : Double D⦄ (env : Env D V L) (code : Code V D L) where
  go_on : M (World D L) Bool → Bool → M (World D L) Bool
  go_on next ok = if ok then next else pure false

  after-answered :
      (o : Outcome (World D L) Bool) (k : M (World D L) (Option Bool)) (next : M (World D L) Bool)
      → ((v : World D L) → k v ≡ answered next v)
      → after (λ r. unless_failed r k) (after (λ ok. pure (some ok)) o)
        ≡ after (λ ok. pure (some ok)) (after (go_on next) o)
  unfolding unless_failed go_on ◌>>=◌
  after-answered (fault e) k next h = refl
  after-answered (done true v) k next h = h v
  after-answered (done false v) k next h = refl

  -- A listing that goes on.
  after-append :
      (o : Outcome (World D L) Bool) (next rest both : M (World D L) Bool)
      → ((v : World D L) → both v ≡ after (go_on rest) (next v))
      → after (go_on both) o ≡ after (go_on rest) (after (go_on next) o)
  unfolding go_on ◌>>=◌
  after-append (fault e) next rest both h = refl
  after-append (done true v) next rest both h = h v
  after-append (done false v) next rest both h = refl

  run_items-append :
      (a b : List Item) (w : World D L)
      → run_items env code (a ++ b) w
        ≡ after (go_on (run_items env code b)) (run_items env code a w)
  unfolding run_items go_on ◌>>=◌
  run_items-append [] b w = refl
  run_items-append (absent ∷ a) b w = refl
  run_items-append (too_long ∷ a) b w = refl
  run_items-append (script path ∷ a) b w =
      after-append (run_lua_code env code (code.load_file path) w) (run_items env code a)
        (run_items env code b) (run_items env code (a ++ b)) (run_items-append a b)

  module _ (load : List ℕ → M (World D L) (Option Bool)) (line : List ℕ) (w : World D L) where
    load_line-comment : is_comment line ≡ true → load_line env code load line w ≡ done (some true) w
    unfolding load_line ◌>>=◌
    load_line-comment h = rw h

    load_line-long :
        is_comment line ≡ false
        → is_too_long (entry_of line) ≡ true
        → load_line env code load line w ≡ fault bad_index
    unfolding load_line script_path ◌>>=◌
    load_line-long h g = rw (h, g)

    load_line-nested : IsNested line → load_line env code load line w ≡ load (entry_of line) w
    unfolding load_line script_path ◌>>=◌
    load_line-nested h = ground (arith, h.0, h.1, h.2)

    load_line-named :
        is_comment line ≡ false
        → is_too_long (entry_of line) ≡ false
        → has_part toc_suffix (path_of (entry_of line)) ≡ false
        → load_line env code load line w
          ≡ answered (run_lua_code env code (code.load_file (path_of (entry_of line)))) w
    unfolding load_line script_path ◌>>=◌
    load_line-named h g k = ground (arith, h, g, k)

  abbrev others_of : ℕ → List (List ℕ) → Option Bool → M (World D L) (Option Bool)
  others_of f rest r = unless_failed r (load_lines env code (load_toc env code f) rest)

  mutual
    unfolding load_toc load_lines script_path unless_failed run_items go_on ◌>>=◌

    load_toc_listed :
        {name : List ℕ} {items : List Item} (d : Lists code.open_file name items) (fuel : ℕ)
        → depth d < fuel
        → (w : World D L) → load_toc env code fuel name w ≡ answered (run_items env code items) w
    load_toc_listed d zero lt w = absurd (omega arith)
    load_toc_listed (overflows h) (suc f) lt w = rw h
    load_toc_listed (cannot_open h e) (suc f) lt w = rw (h, e)
    load_toc_listed (opened h e d) (suc f) lt w = rw (h, e) (load_lines_listed d f (omega arith) w)

    load_lines_listed :
        {lines : List (List ℕ)} {items : List Item} (d : ListsLines code.open_file lines items)
        (fuel : ℕ)
        → lines_depth d ≤ fuel
        → (w : World D L)
        → load_lines env code (load_toc env code fuel) lines w
          ≡ answered (run_items env code items) w
    load_lines_listed end f lt w = refl
    load_lines_listed (comment {line} {rest} h d) f lt w =
        ap (after (others_of f rest)) (load_line-comment (load_toc env code f) line w h)
        ∙ load_lines_listed d f lt w
    load_lines_listed (long_line {line} {rest} h g) f lt w =
        ap (after (others_of f rest)) (load_line-long (load_toc env code f) line w h g)
    load_lines_listed (nested {line} {rest} {items} {others} h d e) f lt w =
        ap (after (others_of f rest))
          (load_line-nested (load_toc env code f) line w h ∙ load_toc_listed d f (ground arith) w)
        ∙ after-answered (run_items env code items w) _ (run_items env code others)
            (load_lines_listed e f (ground arith))
        ∙ ap (after (λ ok. pure (some ok))) (sym (run_items-append items others w))
    load_lines_listed (named {line} {rest} {items} h g k d) f lt w =
        ap (after (others_of f rest)) (load_line-named (load_toc env code f) line w h g k)
        ∙ after-answered (run_lua_code env code (code.load_file (path_of (entry_of line))) w) _
            (run_items env code items) (load_lines_listed d f lt)

  -- `LoadTOCFile` on a table of contents whose nesting ends, with fuel above the depth of the nesting, runs the
  -- scripts of the listing, one after the other, until one does not load or fails, a table cannot be
  -- opened or a path is too long; it returns true if all of them ran.
  pub load_toc_lem :
      {name : List ℕ} {items : List Item} (d : Lists code.open_file name items) (fuel : ℕ)
      → depth d < fuel
      → (w : World D L) → load_toc env code fuel name w ≡ answered (run_items env code items) w
  load_toc_lem d fuel lt w = load_toc_listed d fuel lt w
