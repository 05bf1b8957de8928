-- ===== src/Fee.antt =====
-- crates/hit-zap/src/fee.rs: the fee on a zap.
use hit_enter.Base.{ℕ, ◌*◌, ◌/◌, ◌≤◌, ◌<◌, ◌≡◌, ◌↔◌, arith, ltb, if◌then◌else◌}

abbrev pub fee_percent : ℕ
fee_percent = 1

abbrev pub fee_min_sats : ℕ
fee_min_sats = 100

-- The product stays within a word, since the percentage is 1.
unfoldable pub fee_for : ℕ → ℕ
fee_for amount_sats = if ltb amount_sats fee_min_sats then 0 else amount_sats * fee_percent / 100

-- A fee is at most one percent, there is none exactly under the least amount, and a larger zap has
-- no smaller fee.
pub fee_for_bounds :
    (a b : ℕ)
    → a ≤ b
    → (fee_for a * 100 ≤ a) × ((fee_for a ≡ 0) ↔ (a < fee_min_sats)) × (fee_for a ≤ fee_for b)
unfolding fee_for
fee_for_bounds a b h = (ground arith, (λ e. ground arith, λ e. ground arith), ground arith)
