-- ===== src/Transactions/Durations.antt =====
-- `UserResponseDto.normalizeTradeDurations` (backend/src/users/dto/user-response.dto.ts).
use crypto_sim_backend.Common.{
  ℕ, ◌<◌, ◌≢◌, pos, negsuc, Bool, List, [], ◌∷◌, Option, none, some, any, All, ltb, ◌==◌,
  if◌then◌else◌, arith,
}
use crypto_sim_backend.Database.{NumberValue}

abbrev pub default_trade_durations : List ℕ
default_trade_durations = 30 ∷ 60 ∷ 90 ∷ 120 ∷ 150 ∷ 180 ∷ []

-- `.filter(n => Number.isInteger(n) && n > 0)`
pub positive_integers : List NumberValue → List ℕ
positive_integers [] = []
positive_integers (NumberValue.whole (pos n) ∷ vs) =
    let rest = positive_integers vs in if ltb 0 n then n ∷ rest else rest
positive_integers (NumberValue.whole (negsuc n) ∷ vs) = positive_integers vs
positive_integers (NumberValue.not_whole ∷ vs) = positive_integers vs

abbrev or_default : List ℕ → List ℕ
or_default [] = default_trade_durations
or_default (n ∷ ns) = n ∷ ns

unfoldable pub normalize_trade_durations : Option (List NumberValue) → List ℕ
unfolding positive_integers
normalize_trade_durations none = default_trade_durations
normalize_trade_durations (some []) = default_trade_durations
normalize_trade_durations (some (v ∷ vs)) = or_default (positive_integers (v ∷ vs))

-- `allowedDurations.includes(d)`
unfoldable pub includes_duration : ℕ → List ℕ → Bool
includes_duration d ds = any (λ n. n == d) ds

positive_integers-All : (vs : List NumberValue) → All (λ n. 0 < n) (positive_integers vs)
unfolding positive_integers
positive_integers-All [] = tt
positive_integers-All (NumberValue.whole (pos n) ∷ vs) = ground (arith, positive_integers-All vs)
positive_integers-All (NumberValue.whole (negsuc n) ∷ vs) = positive_integers-All vs
positive_integers-All (NumberValue.not_whole ∷ vs) = positive_integers-All vs

or_default-All :
    (ns : List ℕ) → All (λ n. 0 < n) ns → (or_default ns ≢ []) × All (λ n. 0 < n) (or_default ns)
or_default-All [] a = (λ e. cc, omega arith)
or_default-All (n ∷ ns) a = (λ e. cc, a)

-- Whatever the column holds, the durations that a user may choose are not empty, and all positive.
pub normalize_trade_durations-All :
    (v : Option (List NumberValue))
    → (normalize_trade_durations v ≢ []) × All (λ n. 0 < n) (normalize_trade_durations v)
unfolding normalize_trade_durations
normalize_trade_durations-All none = or_default-All [] tt
normalize_trade_durations-All (some []) = or_default-All [] tt
normalize_trade_durations-All (some (v ∷ vs)) =
    or_default-All (positive_integers (v ∷ vs)) (positive_integers-All (v ∷ vs))
