-- ===== src/Ingest/Clock.antt =====
-- The slot clock (src/ingest.rs, `SlotClock`): it is sorted and bounded, and never looks ahead.
use hfmcbot.Prelude.{
  ℕ, ◌≤◌, ◌<◌, ◌≡◌, ◌⊎◌, inl, inr, refl, [], ◌∷◌, Option, none, some, length, All, arith,
  Bool-cases, leb, leb→le,
}
use hfmcbot.Prelude.Int.{ℤ}
use hfmcbot.Ingest.{SlotClock, clock_cap, put_slot, evict, insert_slot, latest, lookup_slot}

-- The slots rise from entry to entry.
abbrev pub IsRising : SlotClock → Type 0
IsRising [] = Unit
IsRising (e ∷ clock) = All (λ f. e.0 < f.0) clock × IsRising clock

All-above :
    (j k : ℕ) (clock : SlotClock) → j ≤ k → All (λ f. k < f.0) clock → All (λ f. j < f.0) clock
All-above j k [] h all = tt
All-above j k (f ∷ clock) h all = (omega (arith, all.0), All-above j k clock h all.1)

All-put_slot :
    (j slot : ℕ) (at_ms : ℤ) (clock : SlotClock)
    → j < slot
    → All (λ f. j < f.0) clock
    → All (λ f. j < f.0) (put_slot slot at_ms clock)
unfolding put_slot
All-put_slot j slot at_ms [] h all = (h, tt)
All-put_slot j slot at_ms ((k, v) ∷ clock) h all =
    ground (arith, All-put_slot j slot at_ms clock h all.1)

put_slot-IsRising :
    (slot : ℕ) (at_ms : ℤ) (clock : SlotClock)
    → IsRising clock
    → IsRising (put_slot slot at_ms clock)
unfolding put_slot
put_slot-IsRising slot at_ms [] h = (tt, tt)
put_slot-IsRising slot at_ms ((k, v) ∷ clock) h = ground (
  arith,
  All-above slot k clock,
  All-put_slot k slot at_ms clock,
  put_slot-IsRising slot at_ms clock h.1,
)

evict-IsRising : (limit : ℕ) (clock : SlotClock) → IsRising clock → IsRising (evict limit clock)
unfolding evict
evict-IsRising limit [] h = tt
evict-IsRising limit (e ∷ clock) h = ground (arith, evict-IsRising limit clock h.1)

length-evict : (limit : ℕ) (clock : SlotClock) → length (evict limit clock) ≤ limit
unfolding evict
length-evict limit [] = omega arith
length-evict limit (e ∷ clock) = ground (arith, length-evict limit clock)

-- The entries of a clock are in the order of their slots, and there are at most `clock_cap`.
pub record IsClock (clock : SlotClock) : Type 0 where
  pub rising : IsRising clock
  pub bounded : length clock ≤ clock_cap

-- Every insert, of an old slot or a new one, keeps the slots of the clock in order and their number
-- within its bound.
pub insert_slot-IsClock :
    (slot : ℕ) (at_ms : ℤ) (clock : SlotClock)
    → IsClock clock
    → IsClock (insert_slot slot at_ms clock)
unfolding insert_slot
insert_slot-IsClock slot at_ms clock h = record {
  rising =
      evict-IsRising clock_cap (put_slot slot at_ms clock)
        (put_slot-IsRising slot at_ms clock h.rising);
  bounded = length-evict clock_cap (put_slot slot at_ms clock);
}

-- The clock has the time `v` at the slot `k`.
abbrev pub Holds : ℕ → ℤ → SlotClock → Type 0
Holds k v [] = ⊥
Holds k v (e ∷ clock) = ((e.0 ≡ k) × (e.1 ≡ v)) ⊎ Holds k v clock

Holds-lt :
    (j k : ℕ) (v : ℤ) (clock : SlotClock) → All (λ f. j < f.0) clock → Holds k v clock → j < k
Holds-lt j k v [] all h = absurd h
Holds-lt j k v (e ∷ clock) all (inl h) = omega (arith, all.0, h.0)
Holds-lt j k v (e ∷ clock) all (inr h) = Holds-lt j k v clock all.1 h

-- What a lookup at a slot finds: the time at the slot `k`, which is the last one up to there.
pub record IsLatest (clock : SlotClock) (slot k : ℕ) (v : ℤ) : Type 0 where
  pub held : Holds k v clock
  pub past : k ≤ slot
  pub last : All (λ e. (e.0 ≤ k) ⊎ (slot < e.0)) clock

All-future :
    (k slot : ℕ) (clock : SlotClock)
    → All (λ e. slot < e.0) clock
    → All (λ e. (e.0 ≤ k) ⊎ (slot < e.0)) clock
All-future k slot [] all = tt
All-future k slot (e ∷ clock) all = (inr all.0, All-future k slot clock all.1)

latest-IsLatest :
    (found : Option ℤ) (slot : ℕ) (clock : SlotClock)
    → IsRising clock
    → ((latest found slot clock ≡ found) × All (λ e. slot < e.0) clock)
      ⊎ ((k : ℕ) × (v : ℤ) × (latest found slot clock ≡ some v) × IsLatest clock slot k v)
unfolding latest
latest-IsLatest found slot [] h = inl (refl, tt)
latest-IsLatest found slot ((k, v) ∷ clock) h = elim (Bool-cases (leb k slot)) [
  | inr later ↦
      let above : slot < k = ground arith in
      rw later (inl (refl, (above, All-above slot k clock (omega (arith, above)) h.0)))
  | inl past ↦ rw past (elim (latest-IsLatest (some v) slot clock h.1) [
    | inl (e, all) ↦ inr (
      k,
      v,
      e,
      record {
        held = inl (refl, refl);
        past = leb→le k slot past;
        last = (inl (omega arith), All-future k slot clock all);
      },
    )
    | inr (k', v', e, l) ↦ inr (
      k',
      v',
      e,
      record {
        held = inr l.held;
        past = l.past;
        last = (inl (omega (arith, Holds-lt k k' v' clock h.0 l.held)), l.last);
      },
    )
  ])
]

-- On a clock whose slots are in order, a lookup finds the time of the last slot up to the one asked
-- for, never that of a later slot; it finds none exactly if every slot of the clock is later.
pub lookup_slot-IsLatest :
    (slot : ℕ) (clock : SlotClock)
    → IsRising clock
    → ((lookup_slot clock slot ≡ none) × All (λ e. slot < e.0) clock)
      ⊎ ((k : ℕ) × (v : ℤ) × (lookup_slot clock slot ≡ some v) × IsLatest clock slot k v)
unfolding lookup_slot
lookup_slot-IsLatest slot clock h = latest-IsLatest none slot clock h
