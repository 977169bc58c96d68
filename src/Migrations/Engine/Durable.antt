-- ===== src/Migrations/Engine/Durable.antt =====
-- What a trace of queries leaves behind in the database: outside a transaction each query that
-- succeeds is durable at once; inside one, at the COMMIT. `ends_tx` says of which patch texts the
-- server reads transaction control in them; once such a text is sent, where a transaction begins
-- and ends is no longer known, and the state is `broken`.
use primebrick_v3_dal.Base.{Bool, true, false, List, [], ◌∷◌, ◌++◌, Text, if◌then◌else◌}
use primebrick_v3_dal.Migrations.Io.{Query, begin_tx, commit_tx, rollback_tx, patch_sql, Event}

pub data TxState : Type 0 where
  idle : TxState
  open_tx : List Query → TxState
  broken : TxState

pub record View : Type 0 where
  pub durable : List Query
  pub state : TxState

pub data Role : Type 0 where
  starts commits rolls_back plain breaks : Role

abbrev pub role_by : (Text → Bool) → Query → Role
role_by ends_tx begin_tx = starts
role_by ends_tx commit_tx = commits
role_by ends_tx rollback_tx = rolls_back
role_by ends_tx (patch_sql sql) = if ends_tx sql then breaks else plain
role_by ends_tx _ = plain

-- A query that is no transaction control, by its success and the state.
abbrev pub effect : Query → Bool → View → TxState → View
effect q false v _ = v
effect q true v idle = record v { durable = v.durable ++ q ∷ [] }
effect q true v (open_tx qs) = record v { state = open_tx (qs ++ q ∷ []) }
effect q true v broken = v

abbrev pub on_begin : Bool → View → TxState → View
on_begin true v idle = record v { state = open_tx [] }
on_begin false v idle = v
on_begin _ v _ = record v { state = broken }

abbrev pub on_commit : Bool → View → TxState → View
on_commit true v (open_tx qs) = record v { durable = v.durable ++ qs; state = idle }
on_commit false v (open_tx qs) = v
on_commit _ v _ = record v { state = broken }

abbrev pub on_rollback : Bool → View → TxState → View
on_rollback true v (open_tx qs) = record v { state = idle }
on_rollback false v (open_tx qs) = v
on_rollback _ v _ = record v { state = broken }

-- A BEGIN inside a transaction, and a COMMIT or ROLLBACK outside one, break the protocol.
abbrev pub observe_as : Role → Query → Bool → View → View
observe_as starts q b v = on_begin b v v.state
observe_as commits q b v = on_commit b v v.state
observe_as rolls_back q b v = on_rollback b v v.state
observe_as plain q b v = effect q b v v.state
observe_as breaks q b v = record v { state = broken }

abbrev pub observe_by : (Text → Bool) → View → Event → View
observe_by ends_tx v (q, succeeded) = observe_as (role_by ends_tx q) q succeeded v

-- The view of patch texts that hold no transaction control but what the engine strips.
abbrev pub no_control : Text → Bool
no_control sql = false

abbrev pub role : Query → Role
role = role_by no_control

abbrev pub observe : View → Event → View
observe = observe_by no_control
