-- ===== src/Loading/Written.antt =====
-- A table of contents that names scripts, one on each line, is read back as it was written.
use dpscalclua.Base.{
  ℕ, suc, ◌-◌, ◌<◌, ◌≤◌, ◌≡◌, ◌≢◌, refl, subst, ap, sym, ◌∙◌, Bool, true, false, List, [], ◌∷◌,
  ◌++◌, map, Option, some, arith, length, All, length-append,
}
use mathlib.Core.List.{append-nil, append_assoc}
use dpscalclua.Double.{Double}
use dpscalclua.Store.{World}
use dpscalclua.Script.{Env}
use dpscalclua.Loading.{
  Code, max_string_length, line_feed, carriage_return, read_lines, until_byte, entry_of, is_comment,
  toc_suffix, has_part, path_of, load_toc,
}
use dpscalclua.Loading.Listing.{
  Item, script, is_too_long, opened, ListsLines, end, named, lines_depth, run_items,
}
use dpscalclua.Loading.Refines.{answered, load_toc_lem}

-- The end of a line, in the two usual ways.
abbrev pub line_end : (crlf : Bool) → List ℕ
line_end true = carriage_return ∷ line_feed ∷ []
line_end false = line_feed ∷ []

abbrev pub written : (crlf : Bool) → List (List ℕ) → List ℕ
written crlf [] = []
written crlf (name ∷ names) = name ++ (line_end crlf ++ written crlf names)

abbrev pub Lacks : ℕ → List ℕ → Type 0
Lacks c s = All (λ x. x ≢ c) s

-- The name of a script that a line can hold.
pub record IsPlain (name : List ℕ) : Type 0 where
  pub no_end : Lacks 0 name
  pub no_return : Lacks carriage_return name
  pub no_feed : Lacks line_feed name
  pub fits : length name < 252
  pub no_comment : is_comment name ≡ false
  pub no_toc : has_part toc_suffix (path_of name) ≡ false

until_byte-append :
    (c : ℕ) (s rest : List ℕ) → Lacks c s → until_byte c (s ++ rest) ≡ s ++ until_byte c rest
unfolding until_byte
until_byte-append c [] rest h = refl
until_byte-append c (x ∷ s) rest h = ground (arith, until_byte-append c s rest h.1)

until_byte-Lacks : (c : ℕ) (s : List ℕ) → Lacks c s → until_byte c s ≡ s
unfolding until_byte
until_byte-Lacks c [] h = refl
until_byte-Lacks c (x ∷ s) h = ground (arith, until_byte-Lacks c s h.1)

module _ {name : List ℕ} (p : IsPlain name) where
  entry_of-line : (crlf : Bool) → entry_of (name ++ line_end crlf) ≡ name
  unfolding entry_of until_byte
  entry_of-line true =
      rw
        (
          until_byte-append 0 name (line_end true) p.no_end,
          until_byte-append carriage_return name (line_end true) p.no_return,
        )
        (rw append-nil (until_byte-Lacks line_feed name p.no_feed))
  entry_of-line false =
      rw
        (
          until_byte-append 0 name (line_end false) p.no_end,
          until_byte-append carriage_return name (line_end false) p.no_return,
        )
        (rw (until_byte-append line_feed name (line_end false) p.no_feed) (append-nil name))

read_lines_line :
    (room : ℕ) (s rest : List ℕ)
    → Lacks line_feed s
    → length s < room
    → read_lines room (s ++ (line_feed ∷ rest))
      ≡ (s ++ (line_feed ∷ [])) ∷ read_lines (max_string_length - 1) rest
unfolding read_lines
read_lines_line room [] rest h lt = refl
read_lines_line room (x ∷ s) rest h lt = ground (arith, read_lines_line (room - 1) s rest h.1)

Lacks-append : (c : ℕ) (s t : List ℕ) → Lacks c s → Lacks c t → Lacks c (s ++ t)
Lacks-append c [] t h g = g
Lacks-append c (x ∷ s) t h g = (h.0, Lacks-append c s t h.1 g)

is_comment-append :
    (s : List ℕ) (crlf : Bool) → is_comment s ≡ false → is_comment (s ++ line_end crlf) ≡ false
unfolding is_comment
is_comment-append [] true h = refl
is_comment-append [] false h = refl
is_comment-append (c ∷ s) crlf h = h

abbrev lines_of : Bool → List (List ℕ) → List (List ℕ)
lines_of crlf names = map (λ name. name ++ line_end crlf) names

read_lines-written :
    (crlf : Bool) (names : List (List ℕ))
    → All IsPlain names
    → read_lines (max_string_length - 1) (written crlf names) ≡ lines_of crlf names
read_lines-written crlf [] h = unfold read_lines in refl
read_lines-written false (name ∷ names) h =
    read_lines_line 255 name (written false names) h.0.no_feed (omega (arith, h.0.fits))
    ∙ ap (λ ls. (name ++ line_end false) ∷ ls) (read_lines-written false names h.1)
read_lines-written true (name ∷ names) h =
    rw (sym (append_assoc name (carriage_return ∷ []) (line_feed ∷ written true names))) (
      read_lines_line 255 (name ++ (carriage_return ∷ [])) (written true names)
        (Lacks-append line_feed name (carriage_return ∷ []) h.0.no_feed ((λ e. omega arith), tt))
        (omega (arith, h.0.fits, length-append name (carriage_return ∷ [])))
      ∙ rw (append_assoc name (carriage_return ∷ []) (line_feed ∷ []))
          (ap (λ ls. (name ++ line_end true) ∷ ls) (read_lines-written true names h.1)))

fits_in_path : (name : List ℕ) → length name < 252 → is_too_long name ≡ false
unfolding path_of
fits_in_path name h = ground arith

module _ (open_file : List ℕ → Option (List ℕ)) where
  abbrev pub scripts_of : List (List ℕ) → List Item
  scripts_of names = map (λ name. script (path_of name)) names

  ListsLines-lines_of :
      (crlf : Bool) (names : List (List ℕ))
      → All IsPlain names
      → (d : ListsLines open_file (lines_of crlf names) (scripts_of names)) × (lines_depth d ≤ 0)
  ListsLines-lines_of crlf [] h = (end, omega arith)
  ListsLines-lines_of crlf (name ∷ names) h =
      let line = name ++ line_end crlf in
      let e = entry_of-line h.0 crlf in
      let (d, le) = ListsLines-lines_of crlf names h.1 in
      subst
        (λ n.
          (d : ListsLines open_file (line ∷ lines_of crlf names)
            (script (path_of n) ∷ scripts_of names))
          × (lines_depth d ≤ 0))
        e
        (
          named (is_comment-append name crlf h.0.no_comment) (rw e (fits_in_path name h.0.fits))
              (rw e h.0.no_toc) d,
          le,
        )

-- A table of contents that names scripts, one on each line and with either end of line, and whose own name
-- fits: `LoadTOCFile` runs exactly these scripts in their order, until one does not load or fails. The
-- names are shorter than 252 bytes, do not begin with `#`, hold no NUL and no end of line, and are not
-- those of tables.
pub load_toc-written :
    {D V L : Type 0} ⦃d : Double D⦄ (env : Env D V L) (code : Code V D L) (crlf : Bool)
    (toc : List ℕ) (names : List (List ℕ)) (fuel : ℕ)
    → length toc < 252
    → All IsPlain names
    → code.open_file (path_of toc) ≡ some (written crlf names)
    → (w : World D L)
    → load_toc env code (suc fuel) toc w
      ≡ answered (run_items env code (map (λ name. script (path_of name)) names)) w
load_toc-written env code crlf toc names fuel lt plain e w =
    let (d, le) = ListsLines-lines_of code.open_file crlf names plain in
    subst
      (λ ls.
        (d : ListsLines code.open_file ls (scripts_of code.open_file names))
        → lines_depth d ≤ 0
        → load_toc env code (suc fuel) toc w
          ≡ answered (run_items env code (scripts_of code.open_file names)) w)
      (read_lines-written crlf names plain)
      (λ d le. load_toc_lem env code (opened (fits_in_path toc lt) e d) (suc fuel) (omega arith) w)
      d le
