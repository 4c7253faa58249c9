-- ===== src/Floats.antt =====
-- Python's floats, which the source uses for shares of a token budget. The type and its operations
-- are a parameter of every module that computes with them; `FloatLaws` states what a proof assumes of
-- them.
use context_broker.Prelude.{ℕ, ◌≤◌, Bool}

pub record Floats : Type 1 where
  pub Float : Type 0
  -- The literal with these digits and this many decimal places: `decimal 25 4` is 0.0025.
  pub decimal : ℕ → ℕ → Float
  -- An int as an operand of a float operation.
  pub of_int : ℕ → Float
  pub add : Float → Float → Float
  pub mul : Float → Float → Float
  -- `x > y`
  pub gt : Float → Float → Bool
  -- `int(x)` of a float that is not negative.
  pub trunc : Float → ℕ

pub record FloatLaws (f : Floats) : Type 0 where
  -- Rounding is monotone, so the share of a larger count is not smaller.
  pub share_mono :
      (b n m : ℕ) (p : f.Float)
      → n ≤ m
      → f.trunc (f.mul (f.mul (f.of_int b) p) (f.of_int n))
        ≤ f.trunc (f.mul (f.mul (f.of_int b) p) (f.of_int m))
