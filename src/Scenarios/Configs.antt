-- ===== src/Scenarios/Configs.antt =====
-- A configuration that goes through a log entry.
use maxredis.Base.{◌≡◌, refl, some, arith}
use maxredis.Raft.Types.{ClusterConfig}
use maxredis.Raft.ConfigCommand.{serialize, deserialize}
use maxredis.Raft.ConfigCommand.RoundTrip.{AreTokens, SameMembers, deserialize-serialize}
use maxredis.Scenarios.{others}

others-AreTokens : AreTokens others.voters
others-AreTokens = (
  refl,
  ((λ h. omega arith), ((λ h. omega arith), tt)),
  (refl, ((λ h. omega arith), ((λ h. omega arith), tt)), tt),
)

deserialize-serialize_example :
    (d : ClusterConfig) × (deserialize (serialize others) ≡ some d)
    × (d.version ≡ 1)
    × SameMembers d.voters others.voters
    × SameMembers d.learners others.learners
deserialize-serialize_example =
    deserialize-serialize others (omega arith) (omega arith) (omega arith) others-AreTokens tt
