-- ===== src/Boot/Traders.antt =====
-- What a boot went through where it comes up (src/main.rs), and the executor of its engine.
use hfmcbot.Prelude.{◌∙◌, ◌≡◌, refl, sym, ap, arith, Bool, true, false, [], Option, none, some}
use hfmcbot.Boot.{
  Trader, paper_trader, live_trader, BootResult, Refusal, up, refused, refuse_unless, or_refused,
  live_restored, live_engine, or_flat, no_audit_log, paper_engine, ◌>>=◌,
}
use hfmcbot.Config.{Config}
use hfmcbot.Engine.Book.{Restored, Violation, restore, resumed, checked, check_invariants}
use hfmcbot.Engine.Book
use hfmcbot.Engine.State.{Engine, new}
use hfmcbot.Exec.{paper_new}
use hfmcbot.Live.Executor.{LiveExecutor}
use hfmcbot.Live.Upstream.{Net}
use hfmcbot.Persist.{EngineState}
use hfmcbot.Platform.Chrono.{Chrono}
use hfmcbot.Platform.Decimal.{Decimal}

pub boot-bind-up :
    {A B : Type 0} (m : BootResult A) (f : A → BootResult B) (b : B)
    → (m >>= f) ≡ up b
    → (a : A) × (m ≡ up a) × (f a ≡ up b)
boot-bind-up (up a) f b h = (a, refl, h)
boot-bind-up (refused e) f b h = ground arith

pub refuse_unless-up : (b : Bool) (e : Refusal) → refuse_unless b e ≡ up tt → b ≡ true
unfolding refuse_unless
refuse_unless-up true e h = refl
refuse_unless-up false e h = ground arith

pub or_refused-up :
    {A : Type 0} (e : Refusal) (o : Option A) (a : A) → or_refused e o ≡ up a → o ≡ some a
unfolding or_refused
or_refused-up e none a h = ground arith
or_refused-up e (some b) a h = ground arith

pub up-eq : {A : Type 0} {a b : A} → up a ≡ up b → a ≡ b
up-eq h = ground arith

checked-running :
    {X D T : Type 0} (s s' : Engine X D T) (v : Option Violation)
    → checked s v ≡ Book.running s'
    → s ≡ s'
unfolding checked
checked-running s s' none h = ground arith
checked-running s s' (some v) h = ground arith

module _ {W D T : Type 0} ⦃d : Decimal D⦄ ⦃c : Chrono T⦄ where
  exec-restore :
      (cfg : Config D) (x : Trader W D) (now : T) (snap : EngineState D T)
      (s : Engine (Trader W D) D T)
      → restore cfg x [] now snap ≡ Book.running s
      → s.exec ≡ x
  unfolding restore resumed new
  exec-restore cfg x now snap s h =
      let resume = resumed cfg x [] now snap in
      ap (λ t. t.exec) (sym (checked-running resume s (check_invariants resume) h))

  live_restored-up :
      (r : Restored (Trader W D) D T) (s : Engine (Trader W D) D T)
      → live_restored r ≡ up s
      → r ≡ Book.running s
  unfolding live_restored
  live_restored-up (Book.running t) s h = ap Book.running (up-eq h)
  live_restored-up (Book.refused v) s h = ground arith

  pub exec-live_engine :
      (cfg : Config D) (ex : LiveExecutor (Net W) D) (now : T) (o : Option (EngineState D T))
      (s : Engine (Trader W D) D T)
      → live_engine cfg ex now o ≡ up s
      → s.exec ≡ live_trader ex
  unfolding live_engine new
  exec-live_engine cfg ex now none s h = ap (λ t. t.exec) (sym (up-eq h))
  exec-live_engine cfg ex now (some snap) s h =
      exec-restore cfg (live_trader ex) now snap s (live_restored-up _ s h)

  exec-or_flat :
      (reopens : Bool) (flat s : Engine (Trader W D) D T) (r : Restored (Trader W D) D T)
      (x : Trader W D)
      → flat.exec ≡ x
      → ((t : Engine (Trader W D) D T) → r ≡ Book.running t → t.exec ≡ x)
      → or_flat reopens flat r ≡ up s
      → s.exec ≡ x
  unfolding or_flat
  exec-or_flat reopens flat s (Book.running t) x h k e = ap (λ t. t.exec) (sym (up-eq e)) ∙ k t refl
  exec-or_flat reopens flat s (Book.refused v) x h k e =
      let (_, _, e1) = boot-bind-up (refuse_unless reopens no_audit_log) _ s e in
      ap (λ t. t.exec) (sym (up-eq e1)) ∙ h

  pub exec-paper_engine :
      (reopens : Bool) (cfg : Config D) (now : T) (o : Option (EngineState D T))
      (s : Engine (Trader W D) D T)
      → paper_engine reopens cfg now o ≡ up s
      → s.exec ≡ paper_trader (paper_new cfg)
  unfolding paper_engine new
  exec-paper_engine reopens cfg now none s h = ap (λ t. t.exec) (sym (up-eq h))
  exec-paper_engine reopens cfg now (some snap) s h =
      let x = paper_trader (paper_new cfg) in
      exec-or_flat reopens (new cfg x [] now) s (restore cfg x [] now snap) x refl
        (λ t k. exec-restore cfg x now snap t k) h
