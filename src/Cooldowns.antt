-- ===== src/Cooldowns.antt =====
-- The cooldowns of `CPlayer`: `GetSpellCooldown`, `SetSpellCooldown` and `IsSpellAvailable`.
use dpscalclua.Base.{
  ℕ, refl, ◌+◌, ◌≡◌, none, some, inl, inr, arith, ltb, leb, ◌==◌, if◌then◌else◌, Option-cases,
}
use dpscalclua.Map.{Map, find}
use dpscalclua.Map.Laws.{find-insert_new, find-assign}
use dpscalclua.Player.{
  Player, remaining, is_idle, get_spell_cooldown, is_spell_available, set_spell_cooldown,
}

-- The time stamp of a spell's cooldown, 0 if it has none.
abbrev stamp : ℕ → Map ℕ → ℕ
stamp spell m = elim (find spell m) [ none ↦ 0 | some t ↦ t ]

abbrev larger : ℕ → ℕ → ℕ
larger a b = if ltb a b then b else a

module _ {D : Type 0} where
  get_spell_cooldown_lem :
      (p : Player D) (now spell : ℕ)
      → get_spell_cooldown p now spell
        ≡ larger
            (remaining (stamp spell p.cooldowns) now)
            (remaining p.global_cooldown_recovery now)
  unfolding get_spell_cooldown
  get_spell_cooldown_lem p now spell = elim (Option-cases (find spell p.cooldowns)) [
    | inl h ↦ rw h (ground arith)
    | inr (t, h) ↦ rw h (ground arith)
  ]

module _ {D : Type 0} (p : Player D) where
  stamp-set_spell_cooldown :
      (spell time other : ℕ)
      → stamp other (set_spell_cooldown p spell time).cooldowns
        ≡ (if spell == other then time else stamp other p.cooldowns)
  unfolding set_spell_cooldown
  stamp-set_spell_cooldown spell time other = elim (Option-cases (find spell p.cooldowns)) [
    | inl h ↦
        rw (h, set_spell_cooldown) (ground (arith, find-insert_new other spell time p.cooldowns h))
    | inr (t, h) ↦
        rw (h, set_spell_cooldown) (ground (arith, h, find-assign other spell time t p.cooldowns h))
  ]

  gcd-set_spell_cooldown :
      (spell time : ℕ)
      → (set_spell_cooldown p spell time).global_cooldown_recovery ≡ p.global_cooldown_recovery
  unfolding set_spell_cooldown
  gcd-set_spell_cooldown spell time = refl

  -- After a spell's cooldown is set, the spell has the time left until the given stamp or the rest of the
  -- global cooldown, whichever is longer; no other spell's cooldown changes.
  pub get_spell_cooldown-set_spell_cooldown :
      (spell time now other : ℕ)
      → get_spell_cooldown (set_spell_cooldown p spell time) now other ≡ (
          if spell == other
          then larger (remaining time now) (remaining p.global_cooldown_recovery now)
          else get_spell_cooldown p now other)
  get_spell_cooldown-set_spell_cooldown spell time now other =
      let q = set_spell_cooldown p spell time in
      rw (get_spell_cooldown_lem p now other) (
        rw (get_spell_cooldown_lem q now other, gcd-set_spell_cooldown spell time)
          (ground (arith, stamp-set_spell_cooldown spell time other)))

  -- A player who casts nothing may cast a spell from the moment that its cooldown tells, and not before.
  pub is_spell_available-wait :
      (now spell wait : ℕ)
      → p.casting_spell ≡ none
      → is_spell_available p (now + wait) spell ≡ leb (get_spell_cooldown p now spell) wait
  unfolding is_spell_available is_idle
  is_spell_available-wait now spell wait idle = rw idle (
      ground
        (arith, get_spell_cooldown_lem p now spell, get_spell_cooldown_lem p (now + wait) spell))
