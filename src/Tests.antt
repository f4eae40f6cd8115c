-- ===== src/Tests.antt =====
-- Concrete runs: an instance of every interface, and the theorems at concrete inputs.
mod World
mod PoolRuns
mod ContentsRuns
mod StakingRuns
mod StateRuns
mod ExecutorRuns
mod SpentRuns
mod ProposalRuns
mod JsonWorld
mod RpcRuns
mod NodeRuns
mod StartRuns
mod CallRuns
