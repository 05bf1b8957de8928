-- ===== src/Group/Order.antt =====
-- Who may act on whom, by `outranks` of crates/hit-group/src/state.rs.
use hit_enter.Base.{true, false, ◌≡◌, arith, ltb_ℤ_irrefl, ltb_ℤ_trans, ltb_ℤ_asymm}
use hit_enter.Event.{PublicKey}
use hit_enter.Group.{GroupState, is_owner, outranks, rank}

-- To act on somebody is a strict order: who is acted on is not the owner and does not act back, what
-- they act on is acted on too, and nobody acts on themselves.
pub outranks_strict :
    (s : GroupState) (a b c : PublicKey)
    → outranks s a b ≡ true
    → outranks s b c ≡ true
    → (is_owner s b ≡ false)
      × (outranks s b a ≡ false)
      × (outranks s a c ≡ true)
      × (outranks s a a ≡ false)
unfolding outranks
outranks_strict s a b c h k = (
  ground arith,
  ground (arith, ltb_ℤ_asymm (rank s b) (rank s a)),
  ground (arith, ltb_ℤ_trans (rank s c) (rank s b) (rank s a)),
  ground (arith, ltb_ℤ_irrefl (rank s a)),
)
