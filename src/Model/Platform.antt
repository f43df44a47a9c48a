-- ===== src/Model/Platform.antt =====
-- What the program takes from Go: float64, the case mapping of package strings, and the verbs of
-- package fmt.
use incident_investigator.Prelude.{ℕ, String, Bool, List, foldl, if◌then◌else◌}

-- A float64 and its operations. `of_ℕ` is a whole constant or a conversion from int, `half` the
-- constant 0.5, `trunc` the conversion to int and back, `lt`, `le` and `eq` the comparisons `<`,
-- `<=` and `==`. `max`, `min`, `round` and `abs` are math.Max, math.Min,
-- math.Round and math.Abs.
-- `quote`, `decimal` and `whole` are what the verbs %q, %d and %.0f print, and `clock_time`
-- is Format("15:04:05") of a time.
pub record Platform : Type 1 where
  pub Float : Type 0
  pub of_ℕ : ℕ → Float
  pub half : Float
  pub neg : Float → Float
  pub plus : Float → Float → Float
  pub minus : Float → Float → Float
  pub times : Float → Float → Float
  pub over : Float → Float → Float
  pub trunc : Float → Float
  pub lt : Float → Float → Bool
  pub le : Float → Float → Bool
  pub eq : Float → Float → Bool
  pub max : Float → Float → Float
  pub min : Float → Float → Float
  pub round : Float → Float
  pub abs : Float → Float
  pub to_lower : String → String
  pub trim_space : String → String
  pub quote : String → String
  pub decimal : ℕ → String
  pub whole : Float → String
  pub clock_time : ℕ → String

module _ (P : Platform) where
  open P use {Float, of_ℕ, half, plus, times, over, trunc, lt}

  -- A constant with decimal places is a quotient of whole numbers: 0.45 is the number next to 45/100,
  -- which is what the division rounds to.
  unfoldable pub percent : ℕ → Float
  percent n = over (of_ℕ n) (of_ℕ 100)

  -- clamp of internal/engine/protocol/engine.go and internal/engine/confidence.go
  unfoldable pub clamp : Float → Float → Float → Float
  clamp v lo hi = if lt v lo then lo else if lt hi v then hi else v

  -- round1 of the same file
  unfoldable pub round1 : Float → Float
  round1 v = over (trunc (plus (times v (of_ℕ 10)) half)) (of_ℕ 10)

  -- A sum in the order of a loop, from zero.
  unfoldable pub sum : List Float → Float
  sum xs = foldl plus (of_ℕ 0) xs
