-- ===== src/Tests/Fees.antt =====
-- The fee on concrete zaps, for crates/hit-zap/src/fee.rs.
use hit_enter.Base.{◌*◌, ◌≤◌, ◌<◌, ◌≡◌, ◌↔◌, refl, arith}
use hit_enter.Fee.{fee_for, fee_min_sats, fee_for_bounds}

fees : (fee_for 99 ≡ 0) × (fee_for 100 ≡ 1) × (fee_for 2150 ≡ 21)
unfolding fee_for
fees = (refl, refl, refl)

fee_for_bounds_example :
    (fee_for 250 * 100 ≤ 250)
    × ((fee_for 250 ≡ 0) ↔ (250 < fee_min_sats))
    × (fee_for 250 ≤ fee_for 2150)
fee_for_bounds_example = fee_for_bounds 250 2150 (omega arith)
