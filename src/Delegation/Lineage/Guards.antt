-- ===== src/Delegation/Lineage/Guards.antt =====
-- moduagent/delegation/guards.py: `CycleGuard`, and a delegation that it lets through.
use moduagent.Base.{◌+◌, not, Result, ok, guard, ◌>>◌, leb, contains}
use moduagent.Delegation.Models.{AgentRef, str, ExecutionGroupLimits}
use moduagent.Delegation.Lineage.Record.{RunLineage}

pub data Rejection : Type 0 where
  delegation_cycle_detected delegation_depth_exceeded : Rejection

-- `CycleGuard.validate`
unfoldable pub validate : RunLineage → AgentRef → ExecutionGroupLimits → Result Rejection (Unit {0})
validate lineage callee limits = do
  guard (not (contains (str callee) lineage.agent_path)) delegation_cycle_detected
  guard (leb (lineage.depth + 1) limits.max_depth) delegation_depth_exceeded
  ok tt
