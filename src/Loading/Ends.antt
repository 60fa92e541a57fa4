-- ===== src/Loading/Ends.antt =====
-- `LoadTOCFile` ends when no table of contents leads back to itself.
use dpscalclua.Base.{
  All, ℕ, zero, suc, ◌-◌, ◌≤◌, ◌<◌, ◌≡◌, inl, inr, List, [], ◌∷◌, ◌++◌, Option, some, arith,
  Bool-cases, Option-cases,
}
use dpscalclua.Double.{Double}
use dpscalclua.Store.{World}
use dpscalclua.Script.{Env}
use dpscalclua.Loading.{
  Code, max_string_length, read_lines, entry_of, is_comment, toc_suffix, has_part, path_of,
  load_toc,
}
use dpscalclua.Loading.Listing.{
  Item, script, absent, too_long, is_too_long, IsNested, Lists, overflows, cannot_open, opened,
  ListsLines, end, comment, long_line, nested, named, depth, lines_depth, run_items,
}
use dpscalclua.Loading.Refines.{answered, load_toc_lem}

-- Every line of a table that names a table leads to a lower rank.
abbrev pub IsRanked : (List ℕ → Option (List ℕ)) → (List ℕ → ℕ) → Type 0
IsRanked open_file rank =
    (name bytes : List ℕ)
    → open_file (path_of name) ≡ some bytes
    → All (λ line. IsNested line → rank (entry_of line) < rank name)
        (read_lines (max_string_length - 1) bytes)

module _ (open_file : List ℕ → Option (List ℕ)) (rank : List ℕ → ℕ) where
  abbrev Listing : List ℕ → Type 0
  Listing name = (items : List Item) × (d : Lists open_file name items) × (depth d ≤ rank name)

  abbrev LinesListing : ℕ → List (List ℕ) → Type 0
  LinesListing r lines =
      (items : List Item) × (d : ListsLines open_file lines items) × (lines_depth d ≤ r)

  lines_listing :
      (r : ℕ)
      → ((name : List ℕ) → rank name < r → Listing name)
      → (lines : List (List ℕ)) → All (λ line. IsNested line → rank (entry_of line) < r) lines
      → LinesListing r lines
  lines_listing r below [] h = ([], end, omega arith)
  lines_listing r below (line ∷ rest) h =
      let (items, d, le) = lines_listing r below rest h.1 in
      elim (Bool-cases (is_comment line)) [
        | inl e ↦ (items, comment e d, le)
        | inr e ↦ elim (Bool-cases (is_too_long (entry_of line))) [
          | inl g ↦ (too_long ∷ [], long_line e g, omega arith)
          | inr g ↦ elim (Bool-cases (has_part toc_suffix (path_of (entry_of line)))) [
            | inl k ↦
                let less = h.0 (e, g, k) in
                let (inner, c, lt) = below (entry_of line) less in
                (inner ++ items, nested (e, g, k) c d, ground arith)
            | inr k ↦ (script (path_of (entry_of line)) ∷ items, named e g k d, le)
          ]
        ]
      ]

  listing : IsRanked open_file rank → (bound : ℕ) (name : List ℕ) → rank name < bound → Listing name
  listing h zero name lt = absurd (omega arith)
  listing h (suc bound) name lt = elim (Bool-cases (is_too_long name)) [
    | inl e ↦ (too_long ∷ [], overflows e, omega arith)
    | inr e ↦ elim (Option-cases (open_file (path_of name))) [
      | inl g ↦ (absent ∷ [], cannot_open e g, omega arith)
      | inr (bytes, g) ↦
          let (items, d, le) =
            lines_listing (rank name) (λ other less. listing h bound other (omega arith))
              (read_lines (max_string_length - 1) bytes) (h name bytes g) in
          (items, opened e g d, le)
    ]
  ]

-- If each table of contents has a rank above those of the tables that it names, `LoadTOCFile` has a listing
-- to follow, and with fuel above the rank it runs the scripts of the listing until one fails: it
-- never runs out of fuel.
pub load_toc-ends :
    {D V L : Type 0} ⦃d : Double D⦄ (env : Env D V L) (code : Code V D L) (rank : List ℕ → ℕ)
    → IsRanked code.open_file rank
    → (name : List ℕ) (fuel : ℕ) → rank name < fuel
    → (items : List Item) × Lists code.open_file name items
      × ((w : World D L) → load_toc env code fuel name w ≡ answered (run_items env code items) w)
load_toc-ends env code rank h name fuel lt =
    let (items, d, le) = listing code.open_file rank h fuel name lt in
    (items, d, load_toc_lem env code d fuel (omega arith))
