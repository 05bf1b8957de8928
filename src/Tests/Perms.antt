-- ===== src/Tests/Perms.antt =====
-- Permission words at concrete sets, for crates/hit-group/src/perm.rs. 2067 is what a member holds by
-- default; 3 is viewing and posting; 2519 is what a moderator holds by default.
use hit_enter.Base.{◌≡◌, refl, ok, arith}
use hit_enter.Perm.{default_member, default_moderator}
use hit_enter.Perm.Names.{display, parse_list, parse_list-display}

defaults : (default_member ≡ 2067) × (default_moderator ≡ 2519)
defaults = (refl, refl)

parse_list-display_example : parse_list (display 2519) ≡ ok 2519
parse_list-display_example = parse_list-display 2519 (omega arith)
