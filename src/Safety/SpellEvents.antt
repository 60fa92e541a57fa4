-- ===== src/Safety/SpellEvents.antt =====
-- `CSpellEvent::operator()`, `PreAction` and `PostAction` keep the events owned, and the event deletes
-- itself exactly if it is not queued again.
use Prim.Native.Nat.{bit_xor}
use dpscalclua.Base.{
  ℕ, zero, suc, ◌+◌, some, ◌≡◌, refl, sym, ap, subst, Bool, true, false, arith, ◌⊎◌, inl, inr,
}
use dpscalclua.Double.{Double}
use dpscalclua.Global.{event_pre, event_post, has_flag}
use dpscalclua.Map.{find}
use dpscalclua.Spell.{Spell}
use dpscalclua.Event.{
  Event, SpellPart, Body, of_spell, of_aura, map_aura, new_spell_event, new_aura_event,
  new_removal_event,
}
use dpscalclua.Store.{World, Outcome, M, done, fault, ◌>>=◌}
use dpscalclua.Script.{Env}
use dpscalclua.Heap.Laws.{bind-done, read_event-done}
use dpscalclua.Combat.SpellEvents.{
  apply_spell, spell_part_of, read_spell_event, set_spell_part, end_cast, roll_hit, roll_crit,
  channel_loop, start_channel, pre_cast, pre_channel, force_removal, gain_aura, finish_cast,
  post_hit, post_action, after_pre, run_pre, run_post, run_spell_event,
}
use dpscalclua.Safety.Meets.{
  Holds, Meets, Keeps, Keeps-pure, Keeps-get, Keeps-bind, Meets-bind, Meets-if,
}
use dpscalclua.Safety.Core.{
  Core, On, IsFrame, is_spell, has_type, cast_pre, cast_post, channel_pre, channel_post,
}
use dpscalclua.Safety.Steps.{heap_rules, Keeps-spawn}
use dpscalclua.Safety.Current.{Keeps-spell_get_damage}
use dpscalclua.Safety.Routines.{Keeps-call_lua_function}
use dpscalclua.Safety.Owned.{Slot, IsMine, Busy}
use dpscalclua.Safety.Running.{Busy-IsFrame, Meets-write_this}
use dpscalclua.Safety.AuraEvents.{Ended, Ends-over, Ends-enqueue}
use dpscalclua.Safety.Ticks.{Keeps-report_event}

-- A slot of a spell event.
pub record IsSpellSlot (s : Slot) : Type 0 where
  pub is_spell : s.kind ≡ true
  pub spell_type : has_type true s.type_bits ≡ true

spell_body : (b : Body) → is_spell b ≡ true → (a : SpellPart) × (b ≡ of_spell a)
spell_body (of_spell a) h = (a, refl)
spell_body (of_aura s) h = cc

pub read_spell_event-done :
    {D L : Type 0} (this : ℕ) (w : World D L) (e : Event D) (a : SpellPart)
    → find this w.events ≡ some e
    → e.body ≡ of_spell a
    → read_spell_event this w ≡ done (e, a) w
unfolding read_spell_event spell_part_of ◌>>=◌
read_spell_event-done this w e a found body = ground (arith, read_event-done this w e found)

-- `m_EventType ^= EVENT_PRE; m_EventType ^= EVENT_POST;`
abbrev flipped : ℕ → ℕ
flipped t = bit_xor (bit_xor t event_pre) event_post

spell_type_cases :
    (t : ℕ)
    → has_type true t ≡ true
    → ((t ≡ cast_pre) ⊎ (t ≡ cast_post)) ⊎ ((t ≡ channel_pre) ⊎ (t ≡ channel_post))
spell_type_cases t h = ground arith

flipped-has_type :
    (t : ℕ)
    → has_type true t ≡ true
    → has_flag t event_pre ≡ true
    → has_type true (flipped t) ≡ true
flipped-has_type t typed pre = elim (spell_type_cases t typed) [
  | inl (inl e) ↦ rw e refl
  | inl (inr e) ↦ absurd (ground (arith, e))
  | inr (inl e) ↦ rw e refl
  | inr (inr e) ↦ absurd (ground (arith, e))
]

module _ {D L : Type 0} {s : Slot} {n : ℕ} (k : IsSpellSlot s) where
  Meets-read_spell_this :
      {A : Type 0} {Q : A → World D L → Type 0} (f : Event D × SpellPart → M (World D L) A)
      → ((e : Event D) (a : SpellPart) → IsMine s e → Meets (On (Busy s n)) (f (e, a)) Q)
      → Meets (On (Busy s n)) (read_spell_event s.this >>= f) Q
  Meets-read_spell_this f g = record {
    at = λ w h.
        let (e, found, mine) = h.holds.held in
        let (a, body) = spell_body e.body (ground (arith, mine.of_kind, k.is_spell)) in
        subst (Holds _)
          (sym (
            bind-done (read_spell_event s.this) f w
              (read_spell_event-done s.this w e a found body)))
          ((g e a mine).at w h);
  }

  Keeps-set_spell_part :
      (e : Event D) (a : SpellPart)
      → IsMine s e
      → Keeps (On (Busy s n)) (set_spell_part {L = L} e a)
  unfolding set_spell_part
  Keeps-set_spell_part e a m =
      Meets-write_this s.type_bits (record e { body = of_spell a })
        (record { at_this = m.at_this; of_type = m.of_type; of_kind = sym k.is_spell })
        (ground (arith, m.of_type, k.spell_type))

module _ {D V L : Type 0} ⦃d : Double D⦄ (env : Env D V L) {P : Core D → Type 0} where
  Keeps-end_cast : (a : SpellPart) → Keeps (On P) (end_cast {D = D} {L = L} a)
  unfolding end_cast
  Keeps-end_cast a = search heap_rules

  Keeps-roll_hit : (e : Event D) → Keeps (On P) (roll_hit {L = L} env e)
  unfolding roll_hit
  Keeps-roll_hit e = search heap_rules

  Keeps-roll_crit : (e : Event D) → Keeps (On P) (roll_crit {L = L} env e)
  unfolding roll_crit
  Keeps-roll_crit e = search heap_rules

  module _ (F : IsFrame P) where
    Keeps-channel_loop :
        (left i this : ℕ) (e : Event D) (s : Spell D)
        → Keeps (On P) (channel_loop {L = L} env left i this e s)
    unfolding channel_loop new_spell_event
    Keeps-channel_loop zero i this e s = Keeps-pure tt
    Keeps-channel_loop (suc left) i this e s = Keeps-bind _ _ Keeps-get λ w.
        Keeps-bind _ _ (Keeps-spawn F _ _ λ a. (refl, refl))
          λ x. Keeps-channel_loop left (i + 1) this e s

    Keeps-force_removal :
        (spell : ℕ) (e : Event D) (aura : ℕ) → Keeps (On P) (force_removal {L = L} env spell e aura)
    unfolding force_removal new_removal_event apply_spell map_aura
    Keeps-force_removal spell e aura = search (heap_rules, Keeps-spawn F) depth 20

    Keeps-gain_aura :
        (spell : ℕ) (e : Event D) (s : Spell D) → Keeps (On P) (gain_aura {L = L} env spell e s)
    unfolding gain_aura new_aura_event apply_spell map_aura
    Keeps-gain_aura spell e s = search (heap_rules, Keeps-spawn F, Keeps-force_removal) depth 20

module _ {D V L : Type 0} ⦃d : Double D⦄ (env : Env D V L) {s : Slot} (k : IsSpellSlot s) where
  Keeps-start_channel :
      (e : Event D) (a : SpellPart) (p : Spell D)
      → IsMine s e
      → Keeps (On (Busy s 0)) (start_channel {L = L} env s.this e a p)
  unfolding start_channel
  Keeps-start_channel e a p m =
      search
        (
          heap_rules,
          Keeps-roll_hit env,
          Keeps-set_spell_part k,
          Keeps-channel_loop env Busy-IsFrame,
          Keeps-end_cast env,
        )
        depth 20

  Keeps-pre_cast : (spell : ℕ) → Keeps (On (Busy s 0)) (pre_cast {L = L} env s.this spell)
  unfolding pre_cast
  Keeps-pre_cast spell =
      search
        (
          heap_rules,
          Keeps-call_lua_function env Busy-IsFrame,
          Meets-read_spell_this k,
          Keeps-set_spell_part k,
          Keeps-start_channel,
        )
        depth 30

  Keeps-pre_channel :
      (spell : ℕ) (e : Event D) → Keeps (On (Busy s 0)) (pre_channel {L = L} env spell e)
  unfolding pre_channel
  Keeps-pre_channel spell e = search (heap_rules, Keeps-call_lua_function env Busy-IsFrame) depth 20

  Keeps-finish_cast : (p : Spell D) → Keeps (On (Busy s 0)) (finish_cast {L = L} env s.this p)
  unfolding finish_cast
  Keeps-finish_cast p =
      search
        (
          heap_rules,
          Keeps-call_lua_function env Busy-IsFrame,
          Meets-read_spell_this k,
          Keeps-end_cast env,
        )
        depth 30

  Keeps-post_hit :
      (spell : ℕ) (e : Event D) (a : SpellPart)
      → IsMine s e
      → Keeps (On (Busy s 0)) (post_hit {L = L} env s.this spell e a)
  unfolding post_hit
  Keeps-post_hit spell e a m =
      search
        (
          heap_rules,
          Keeps-call_lua_function env Busy-IsFrame,
          Meets-read_spell_this k,
          Keeps-set_spell_part k,
          Keeps-roll_crit env,
          Keeps-gain_aura env Busy-IsFrame,
          Keeps-finish_cast,
          Keeps-spell_get_damage,
          Keeps-report_event,
        )
        depth 40

  Keeps-post_action : Keeps (On (Busy s 0)) (post_action {L = L} env s.this)
  unfolding post_action
  Keeps-post_action =
      search
        (
          heap_rules,
          Meets-read_spell_this k,
          Keeps-set_spell_part k,
          Keeps-roll_hit env,
          Keeps-post_hit,
          Keeps-end_cast env,
        )
        depth 30

  Meets-run_post : (e : Event D) → Meets (On (Busy s 0)) (run_post {L = L} env s.this e) (Ended s)
  unfolding run_post
  Meets-run_post e = search (heap_rules, Keeps-post_action, Ends-over) depth 20

-- The end of the running event in a slot whose type has changed.
module _ {D L : Type 0} (s : Slot) (t : ℕ) where
  Holds-as :
      (o : Outcome (World D L) Bool)
      → Holds (Ended (record s { type_bits = t })) o
      → Holds (Ended s) o
  Holds-as (done over w) h = record { final_type = h.final_type; holds = h.holds }
  Holds-as (fault f) h = h

  Meets-as :
      {P : World D L → Type 0} (m : M (World D L) Bool)
      → Meets P m (Ended (record s { type_bits = t }))
      → Meets P m (Ended s)
  Meets-as m h = record { at = λ w p. Holds-as (m w) (h.at w p) }

module _ {D V L : Type 0} ⦃d : Double D⦄ (env : Env D V L) {s : Slot} (k : IsSpellSlot s) where
  Meets-after_pre :
      (started : Bool)
      → has_flag s.type_bits event_pre ≡ true
      → Meets (On (Busy s 0)) (after_pre {L = L} env s.this started) (Ended s)
  unfolding after_pre
  Meets-after_pre started pre = Meets-read_spell_this k _ λ e a m.
      let typed = flipped-has_type s.type_bits k.spell_type pre in
      Meets-bind (λ _. On (Busy (record s { type_bits = flipped s.type_bits }) 0)) _ _
        (Meets-write_this (flipped s.type_bits) (record e { event_type = flipped e.event_type })
          (record { at_this = m.at_this; of_type = ap flipped m.of_type; of_kind = m.of_kind })
          (ground (arith, m.of_kind, m.of_type, k.is_spell, typed)))
        λ u.
          Meets-as s (flipped s.type_bits) _ (search (heap_rules, Ends-over, Ends-enqueue) depth 20)

  Meets-run_pre :
      (e : Event D) (a : SpellPart)
      → IsMine s e
      → has_flag e.event_type event_pre ≡ true
      → Meets (On (Busy s 0)) (run_pre {L = L} env s.this e a) (Ended s)
  unfolding run_pre
  Meets-run_pre e a m pre =
      let was : has_flag s.type_bits event_pre ≡ true =
        subst (λ t. has_flag t event_pre ≡ true) m.of_type pre in
      search (heap_rules, Ends-over, Keeps-pre_cast env k, Keeps-pre_channel env, Meets-after_pre)
        depth 20

  no_flag :
      (e : Event D)
      → IsMine s e
      → has_flag e.event_type event_pre ≡ false
      → has_flag e.event_type event_post ≡ false
      → ⊥
  no_flag e m pre post =
      let typed = subst (λ t. has_type true t ≡ true) (sym m.of_type) k.spell_type in
      elim (spell_type_cases e.event_type typed) [
        | inl (inl h) ↦ ground (arith, h)
        | inl (inr h) ↦ ground (arith, h)
        | inr (inl h) ↦ ground (arith, h)
        | inr (inr h) ↦ ground (arith, h)
      ]

  pub Meets-run_spell_event : Meets (On (Busy s 0)) (run_spell_event {L = L} env s.this) (Ended s)
  unfolding run_spell_event
  Meets-run_spell_event = Meets-read_spell_this k _ λ e a m.
      Meets-if _ _ _ (λ pre. Meets-run_pre e a m pre)
        λ other.
          Meets-if _ _ _ (λ post. Meets-run_post env k e)
            λ neither. absurd (no_flag e m other neither)
