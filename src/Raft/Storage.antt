-- ===== src/Raft/Storage.antt =====
-- server/raft/raft_storage.{h,cc}: the hard state of a node. `disk` is what the last `Flush` wrote:
-- `Flush` renames a complete file into place, so the file holds one whole record. A failing write
-- is not modelled (the callers ignore `Flush`'s result); an empty path disables persistence.
use maxredis.Base.{Bool, [], if◌then◌else◌}
use maxredis.Raft.Types.{Term, NodeId, ConfigState, stable, JointConfig, empty_joint}

pub record HardState : Type 0 where
  pub current_term : Term
  pub voted_for : NodeId
  pub config_state : ConfigState
  pub joint_config : JointConfig

pub record RaftStorage : Type 0 where
  pub persistent : Bool  -- `!path_.empty()`
  pub hard : HardState
  pub open hard use *
  pub disk : HardState

abbrev pub fresh : HardState
fresh = record {
  current_term = 0;
  voted_for = [];
  config_state = stable;
  joint_config = empty_joint;
}

unfoldable pub flush : RaftStorage → RaftStorage
flush s = if s.persistent then record s { disk = s.hard } else s

unfoldable pub set_current_term : Term → RaftStorage → RaftStorage
unfolding flush
set_current_term t s = flush (record s { hard = record s.hard { current_term = t } })

unfoldable pub set_voted_for : NodeId → RaftStorage → RaftStorage
unfolding flush
set_voted_for id s = flush (record s { hard = record s.hard { voted_for = id } })

unfoldable pub set_state : Term → NodeId → RaftStorage → RaftStorage
unfolding flush
set_state t id s = flush (record s { hard = record s.hard { current_term = t; voted_for = id } })

unfoldable pub set_joint_config_state : ConfigState → JointConfig → RaftStorage → RaftStorage
unfolding flush
set_joint_config_state state cfg s =
    flush (record s { hard = record s.hard { config_state = state; joint_config = cfg } })

unfoldable pub clear : RaftStorage → RaftStorage
unfolding flush
clear s = flush (record s { hard = fresh })
