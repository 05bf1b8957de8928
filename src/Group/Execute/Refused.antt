-- ===== src/Group/Execute/Refused.antt =====
-- What a refused action of crates/hit-group/src/state.rs leaves behind, statement by statement.
use hit_enter.Base.{◌≡◌, err}
use hit_enter.Event.{PublicKey, Timestamp}
use hit_enter.Event.Actions.{Action}
use hit_enter.Group.{GroupState, Refusal}
use hit_enter.Group.Apply.Refused.{Leaves, perform_refused}
use hit_enter.Group.Execute.{execute}
use hit_enter.Group.Execute.Whole.{execute-perform}

-- However far the statements of an action came before one refused it, they leave the state as it was,
-- but for a mute: its target's mutes that cover its time may have been ended.
pub execute_refused :
    (s : GroupState) (actor : PublicKey) (at : Timestamp) (a : Action) {x : Refusal}
    → (execute actor at a s).1 ≡ err x
    → Leaves s at a (execute actor at a s).0
execute_refused s actor at a e =
    rw (execute-perform s actor at a)
      (perform_refused s actor at a (rw (execute-perform s actor at a) at e))
