-- ===== src/Reporter/Log.antt =====
-- The texts that the destructor of `CDefaultReporter` (`DPSCalc/Reporter.cpp`) writes to its two log files.
use dpscalclua.Base.{
  ℕ, zero, suc, ◌+◌, ◌-◌, ◌/◌, ◌%◌, ◌^◌, List, [], ◌∷◌, ◌++◌, codes, ltb, word_mod, if◌then◌else◌,
}
use dpscalclua.Double.{Double}
use dpscalclua.Store.{DamageInfo, InfoRow}

-- The decimal digits before `out`, at most as many as the fuel.
unfoldable pub digits : (fuel : ℕ) → ℕ → (out : List ℕ) → List ℕ
digits zero n out = out
digits (suc fuel) n out =
    let more = digits fuel (n / 10) ((b'0' + n % 10) ∷ out) in
    if ltb n 10 then (b'0' + n) ∷ out else more

-- `%d` of a `uint32`, which is read as an `int`: 10 digits are enough.
unfoldable pub print_int : ℕ → List ℕ
unfolding digits
print_int n = if ltb n (2 ^ 31) then digits 10 n [] else b'-' ∷ digits 10 (word_mod - n) []

-- `[%d]%s(%d)(crit)\n` or `[%d]%s(%d)\n`.
unfoldable pub combat_line : DamageInfo → List ℕ
combat_line i =
    b'[' ∷ print_int i.game_time
    ++ (b']' ∷ codes i.spell_name
        ++ (b'(' ∷ print_int i.damage
            ++ (b')' ∷ (if i.is_crit then codes "(crit)\n" else codes "\n"))))

-- The loop over the newest-first `_v` from its oldest entry.
unfoldable pub combat_lines : List DamageInfo → List ℕ
combat_lines [] = []
combat_lines (i ∷ older) = combat_lines older ++ combat_line i

abbrev pub blank_lines : List ℕ
blank_lines = codes "\n\n\n"

-- `print_float` is `%f`.
module _ {D : Type 0} ⦃d : Double D⦄ (print_float : D → List ℕ) where
  open d use {float_div, float_of_word, float_lit}

  -- `Total Damage = %d\n DPS = %f\n`.
  unfoldable pub lite_head : (total : ℕ) → List ℕ
  lite_head total =
      codes "Total Damage = "
      ++ (print_int total
          ++ (codes "\n DPS = "
              ++ (print_float (float_div (float_of_word total) (float_lit 5000 0)) ++ codes "\n")))

  -- `%s %d(%d)[%f] [%f crit]\n`.
  unfoldable pub lite_line : (total : ℕ) → InfoRow → List ℕ
  lite_line total r =
      codes r.spell_name
      ++ (codes " "
          ++ (print_int r.damage
              ++ (codes "("
                  ++ (print_int r.count
                      ++ (codes ")["
                          ++ (print_float (float_div (float_of_word r.damage) (float_of_word total))
                              ++ (codes "] ["
                                  ++ (print_float (
                                        float_div (float_of_word r.crit_count)
                                          (float_of_word r.count))
                                      ++ codes " crit]\n"))))))))

  unfoldable pub lite_lines : (total : ℕ) → List InfoRow → List ℕ
  lite_lines total [] = []
  lite_lines total (r ∷ rest) = lite_line total r ++ lite_lines total rest
