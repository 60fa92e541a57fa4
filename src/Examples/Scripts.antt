-- ===== src/Examples/Scripts.antt =====
-- The theorems on the loading of scripts, at a table that names another one.
use dpscalclua.Base.{
  ◌+◌, All, ℕ, ◌<◌, ◌≡◌, refl, subst, Bool, true, false, List, [], ◌∷◌, some, arith, leb, length,
  if◌then◌else◌,
}
use dpscalclua.Double.Milli.{milli}
use dpscalclua.Store.{World}
use dpscalclua.Script.{call, finish, fn_get_game_time}
use dpscalclua.Loading.{
  Code, main_toc, path_of, read_lines, until_byte, entry_of, is_comment, has_part, load_toc,
}
use dpscalclua.Loading.Listing.{
  Item, script, IsNested, Lists, opened, end, comment, nested, named, run_items,
}
use dpscalclua.Loading.Refines.{answered, load_toc_lem}
use dpscalclua.Loading.Ends.{IsRanked, load_toc-ends}
use dpscalclua.Loading.Written.{IsPlain, written, load_toc-written}
use dpscalclua.Examples.Stores.{sim, world}

-- `main.toc` has a comment, the table `s.toc` and the script `a`; every other table has the script `b`.
abbrev contents : (is_main : Bool) → List ℕ
contents true = b'#' ∷ 10 ∷ b's' ∷ b'.' ∷ b't' ∷ b'o' ∷ b'c' ∷ 13 ∷ 10 ∷ b'a' ∷ 10 ∷ []
contents false = b'b' ∷ []

abbrev pub code : Code ℕ ℕ ℕ
code = record {
  opens = true;
  fresh = 0;
  open_file = λ path. some (contents (leb 12 (length path)));
  load_file = λ path. some (λ l. call fn_get_game_time [] λ r. finish true (l + 1));
  preload = some (λ l. finish true l);
  additional = some (λ l. finish true (l + 2));
  dps = λ n l. finish true n;
  less = λ a b. false;
  print_float = λ x. x ∷ [];
}

abbrev scripts : List Item
scripts = script (path_of (b'b' ∷ [])) ∷ script (path_of (b'a' ∷ [])) ∷ []

main_listing : Lists code.open_file main_toc scripts
unfolding read_lines until_byte entry_of is_comment has_part path_of
main_listing = opened refl refl (
    comment refl (
      nested (refl, refl, refl) (opened refl refl (named refl refl refl end))
        (named refl refl refl end)))

load_toc_lem_example :
    load_toc sim code 2 main_toc world ≡ answered (run_items sim code scripts) world
unfolding main_listing read_lines until_byte entry_of is_comment has_part path_of
load_toc_lem_example = load_toc_lem sim code main_listing 2 (omega arith) world

abbrev rank : List ℕ → ℕ
rank name = if leb 12 (length (path_of name)) then 1 else 0

lines_ranked :
    (is_main : Bool)
    → All
        (λ line. IsNested line → rank (entry_of line) < (if is_main then 1 else 0))
        (read_lines 255 (contents is_main))
unfolding read_lines until_byte entry_of is_comment has_part path_of
lines_ranked true = (λ n. omega arith, (λ n. omega arith, (λ n. omega arith, tt)))
lines_ranked false = (λ n. absurd (cc n.2), tt)

ranked : IsRanked code.open_file rank
ranked name bytes e =
    subst
      (λ bytes'.
        All (λ line. IsNested line → rank (entry_of line) < rank name) (read_lines 255 bytes'))
      (cc e) (lines_ranked (leb 12 (length (path_of name))))

load_toc-ends_example :
    (items : List Item) × Lists code.open_file main_toc items
    × ((w : World ℕ ℕ) → load_toc sim code 2 main_toc w ≡ answered (run_items sim code items) w)
unfolding path_of
load_toc-ends_example = load_toc-ends sim code rank ranked main_toc 2 (omega arith)

abbrev names : List (List ℕ)
names = (b'a' ∷ []) ∷ (b'b' ∷ []) ∷ []

letters : All IsPlain names
unfolding is_comment has_part path_of
letters = (
  record {
    no_end = (λ e. omega arith, tt);
    no_return = (λ e. omega arith, tt);
    no_feed = (λ e. omega arith, tt);
    fits = omega arith;
    no_comment = refl;
    no_toc = refl;
  },
  (
    record {
      no_end = (λ e. omega arith, tt);
      no_return = (λ e. omega arith, tt);
      no_feed = (λ e. omega arith, tt);
      fits = omega arith;
      no_comment = refl;
      no_toc = refl;
    },
    tt,
  ),
)

abbrev written_code : Code ℕ ℕ ℕ
written_code = record code { open_file = λ path. some (written true names) }

load_toc-written_example :
    load_toc sim written_code 1 main_toc world
    ≡ answered
        (run_items sim written_code
          (script (path_of (b'a' ∷ [])) ∷ script (path_of (b'b' ∷ [])) ∷ []))
        world
load_toc-written_example =
    load_toc-written sim written_code true main_toc names 0 (omega arith) letters refl world
