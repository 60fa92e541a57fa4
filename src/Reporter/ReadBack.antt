-- ===== src/Reporter/ReadBack.antt =====
-- A reader of `CombatLog.txt`, which the destructor of `CDefaultReporter` (`DPSCalc/Reporter.cpp`) writes.
use dpscalclua.Base.{
  All, ℕ, zero, suc, ◌+◌, ◌-◌, ◌*◌, ◌/◌, ◌%◌, ◌^◌, ◌<◌, ◌≡◌, refl, ap, ◌∙◌, Bool, true, false, ◌&&◌,
  List, [], ◌∷◌, ◌++◌, inl, inr, arith, codes, length, leb, ltb, ◌==◌, if◌then◌else◌, Bool-cases,
  ltb→lt, lt→ltb,
}
use mathlib.Core.List.{append_assoc}
use dpscalclua.Store.{DamageInfo}
use dpscalclua.Reporter.Log.{digits, print_int, combat_line, combat_lines}

-- A report as it stands in the log.
pub record Entry : Type 0 where
  pub time : ℕ
  pub name : List ℕ
  pub damage : ℕ
  pub crit : Bool

abbrev pub entry : DamageInfo → Entry
entry i = record {
  time = i.game_time;
  name = codes i.spell_name;
  damage = i.damage;
  crit = i.is_crit;
}

-- A number, and what comes behind it.
unfoldable pub scan : ℕ → List ℕ → ℕ × List ℕ
scan n [] = (n, [])
scan n (c ∷ s) = if leb b'0' c && leb c b'9' then scan (n * 10 + (c - b'0')) s else (n, c ∷ s)

-- The bytes before the first `c`, and those behind it.
unfoldable pub cut : ℕ → List ℕ → List ℕ × List ℕ
cut c [] = ([], [])
cut c (x ∷ s) = let more = cut c s in if x == c then ([], s) else (x ∷ more.0, more.1)

abbrev rest_of : List ℕ → List ℕ
rest_of [] = []
rest_of (c ∷ s) = s

-- The end of a line: `(crit)` or nothing, and the line feed.
abbrev with_end : (time : ℕ) (name : List ℕ) (damage : ℕ) → List ℕ → Entry × List ℕ
with_end time name damage [] =
    (record { time = time; name = name; damage = damage; crit = false }, [])
with_end time name damage (c ∷ s) =
    if c == b'('
    then (record { time = time; name = name; damage = damage; crit = true }, (cut 10 s).1)
    else (record { time = time; name = name; damage = damage; crit = false }, s)

unfoldable pub read_line : List ℕ → Entry × List ℕ
unfolding scan cut
read_line s =
    let (time, after_time) = scan 0 (rest_of s) in
    let (name, after_name) = cut b'(' (rest_of after_time) in
    let (damage, after_damage) = scan 0 after_name in
    with_end time name damage (rest_of after_damage)

-- As many lines as the count says.
unfoldable pub read_log : (count : ℕ) → List ℕ → List Entry × List ℕ
read_log zero s = ([], s)
read_log (suc count) s =
    let (first, rest) = read_line s in
    let (others, left) = read_log count rest in (first ∷ others, left)

abbrev tens : ℕ → ℕ
tens zero = 1
tens (suc f) = 10 * tens f

digits-append : (f n : ℕ) (out rest : List ℕ) → digits f n out ++ rest ≡ digits f n (out ++ rest)
unfolding digits
digits-append zero n out rest = refl
digits-append (suc f) n out rest =
    ground (arith, digits-append f (n / 10) ((b'0' + n % 10) ∷ out) rest)

scan-digit : (n i : ℕ) (s : List ℕ) → i < 10 → scan n ((b'0' + i) ∷ s) ≡ scan (n * 10 + i) s
unfolding scan
scan-digit n i s h = ground arith

scan-digits : (f n : ℕ) (out : List ℕ) → n < tens f → scan 0 (digits f n out) ≡ scan n out
unfolding digits
scan-digits zero n out h = ap (λ k. scan k out) (omega arith)
scan-digits (suc f) n out h = elim (Bool-cases (ltb n 10)) [
  | inl e ↦ rw e (scan-digit 0 n out (ltb→lt n 10 e) ∙ ap (λ k. scan k out) (omega arith))
  | inr e ↦ rw e (
      scan-digits f (n / 10) ((b'0' + n % 10) ∷ out) (omega arith)
      ∙ scan-digit (n / 10) (n % 10) out (omega arith)
      ∙ ap (λ k. scan k out) (omega arith))
]

scan-print_int :
    (n c : ℕ) (rest : List ℕ)
    → n < 2 ^ 31
    → (leb b'0' c && leb c b'9') ≡ false
    → scan 0 (print_int n ++ c ∷ rest) ≡ (n, c ∷ rest)
unfolding print_int scan
scan-print_int n c rest fits stops = rw (lt→ltb n (2 ^ 31) fits) (
    ap (scan 0) (digits-append 10 n [] (c ∷ rest))
    ∙ scan-digits 10 n (c ∷ rest) (omega arith)
    ∙ rw stops refl)

cut-append :
    (c : ℕ) (v s : List ℕ)
    → All (λ x. (x == c) ≡ false) v
    → (c == c) ≡ true
    → cut c (v ++ c ∷ s) ≡ (v, s)
unfolding cut
cut-append c [] s h e = rw e refl
cut-append c (x ∷ v) s h e = rw (h.0) (rw (cut-append c v s (h.1) e) refl)

-- The times and the damage are below 2 ^ 31, and no name has a `(`.
pub record IsLoggable (i : DamageInfo) : Type 0 where
  pub time_fits : i.game_time < 2 ^ 31
  pub damage_fits : i.damage < 2 ^ 31
  pub lacks : All (λ x. (x == b'(') ≡ false) (codes i.spell_name)

-- The entries of a newest-first list before those of `after`, oldest first.
unfoldable pub told : List DamageInfo → (after : List Entry) → List Entry
told [] after = after
told (i ∷ older) after = told older (entry i ∷ after)

abbrev line_end : Bool → List ℕ
line_end is_crit = if is_crit then codes "(crit)\n" else codes "\n"

combat_line-append :
    (i : DamageInfo) (rest : List ℕ)
    → combat_line i ++ rest
      ≡ b'['
        ∷ (print_int i.game_time
            ++ (b']'
                ∷ (codes i.spell_name
                    ++ (b'(' ∷ (print_int i.damage ++ (b')' ∷ (line_end i.is_crit ++ rest)))))))
unfolding combat_line
combat_line-append i rest = simp append_assoc refl

with_end-line_end :
    (time : ℕ) (name : List ℕ) (damage : ℕ) (is_crit : Bool) (rest : List ℕ)
    → with_end time name damage (line_end is_crit ++ rest)
      ≡ (record { time = time; name = name; damage = damage; crit = is_crit }, rest)
unfolding cut
with_end-line_end time name damage true rest = refl
with_end-line_end time name damage false rest = refl

read_line-combat_line :
    (i : DamageInfo) (rest : List ℕ)
    → IsLoggable i
    → read_line (combat_line i ++ rest) ≡ (entry i, rest)
unfolding read_line
read_line-combat_line i rest h = rw (combat_line-append i rest) (
    rw
      (scan-print_int i.game_time b']'
        (codes i.spell_name
          ++ (b'(' ∷ (print_int i.damage ++ (b')' ∷ (line_end i.is_crit ++ rest)))))
        h.time_fits refl)
      (rw
        (cut-append b'(' (codes i.spell_name)
          (print_int i.damage ++ (b')' ∷ (line_end i.is_crit ++ rest))) h.lacks refl)
        (rw (scan-print_int i.damage b')' (line_end i.is_crit ++ rest) h.damage_fits refl)
          (with_end-line_end i.game_time (codes i.spell_name) i.damage i.is_crit rest))))

read_log-append :
    (v : List DamageInfo) (k : ℕ) (rest : List ℕ)
    → All IsLoggable v
    → read_log (length v + k) (combat_lines v ++ rest)
      ≡ (let after = read_log k rest in (told v after.0, after.1))
unfolding read_log combat_lines told
read_log-append [] k rest h = ap (λ n. read_log n rest) (omega arith)
read_log-append (i ∷ older) k rest (h, hs) =
    let counts : suc (length older) + k ≡ length older + suc k = omega arith in
    rw counts (
      ap (read_log (length older + suc k)) (append_assoc (combat_lines older) (combat_line i) rest)
      ∙ read_log-append older (suc k) (combat_line i ++ rest) hs
      ∙ rw (read_line-combat_line i rest h) refl)

-- Let no report's name have a `(`, and let the times and the damage be below `2 ^ 31`. Then the lines of
-- the log, read as often as there are reports, give the time, the name, the damage and the mark of each
-- report, oldest first, and leave what stands behind them.
pub read_log-combat_lines :
    (v : List DamageInfo) (rest : List ℕ)
    → All IsLoggable v
    → read_log (length v) (combat_lines v ++ rest) ≡ (told v [], rest)
unfolding read_log
read_log-combat_lines v rest h =
    ap (λ n. read_log n (combat_lines v ++ rest)) (omega arith) ∙ read_log-append v 0 rest h
