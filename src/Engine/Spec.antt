-- ===== src/Engine/Spec.antt =====
-- What the engine promises of its book (src/engine.rs): an abstract book, which forgets the order of
-- the map and what was seen of the market, and the only two moves that change it.
use hfmcbot.Prelude.{◌≡◌, List, [], ◌∷◌, ◌++◌, Option, none, some, if◌then◌else◌}
use hfmcbot.Prelude.Text.{Text, text_eq}
use hfmcbot.Platform.Decimal.{Decimal, dec, ◌⊕◌, ◌⊖◌}
use hfmcbot.Types.{ClosedTrade, Fill}

pub record Holding (D : Type 0) : Type 0 where
  pub amount : D
  pub cost : D

pub record Book (D T : Type 0) : Type 0 where
  pub money : D
  pub holding : Text → Option (Holding D)
  pub trades : List (ClosedTrade D T)

-- what is held of a token, zero where nothing is
abbrev pub or_zero : {D : Type 0} ⦃d : Decimal D⦄ → Option (Holding D) → Holding D
or_zero none = record { amount = dec 0; cost = dec 0 }
or_zero (some h) = h

module _ {D T : Type 0} ⦃d : Decimal D⦄ where
  abbrev pub with_fill : Holding D → Fill D T → Holding D
  with_fill h f = record { amount = h.amount ⊕ f.qty; cost = h.cost ⊕ (f.notional_usd ⊕ f.fee_usd) }

  -- a fill of a buy joins what is held of its token
  unfoldable pub buy : Book D T → Fill D T → Book D T
  buy b f = record b {
    holding = λ k.
        if text_eq k f.mint then some (with_fill (or_zero (b.holding f.mint)) f) else b.holding k;
  }

  -- a token is sold as a whole, and what it earned goes to the money
  unfoldable pub sell : Book D T → ClosedTrade D T → Book D T
  sell b t = record {
    money = b.money ⊕ t.pnl_usd;
    holding = λ k. if text_eq k t.mint then none else b.holding k;
    trades = b.trades ++ t ∷ [];
  }

  -- The trade closes what is held of its token, at its cost.
  pub record IsSaleOf (h : Holding D) (t : ClosedTrade D T) : Type 0 where
    pub same_cost : t.cost_usd ≡ h.cost
    pub is_profit : t.pnl_usd ≡ t.proceeds_usd ⊖ h.cost

  -- A book is reached from another by buys, and by sales of what is held.
  pub data Reaches (b : Book D T) : Book D T → Type 0 where
    start : Reaches b b
    bought : (b' : Book D T) (f : Fill D T) → Reaches b b' → Reaches b (buy b' f)
    sold :
        (b' : Book D T) (h : Holding D) (t : ClosedTrade D T)
        → b'.holding t.mint ≡ some h
        → IsSaleOf h t
        → Reaches b b'
        → Reaches b (sell b' t)
