-- ===== src/Delegation.antt =====
-- moduagent/delegation: running a child Agent on behalf of a parent run. Models has the shared
-- value types of models.py, References the text of an Agent reference, Lineage the run lineage and
-- the guards of a delegation, Budget the execution-group ledger of budget.py, Receipts the delegation
-- receipts of receipts.py.
pub mod Models
pub mod References
pub mod Lineage
pub mod Budget
pub mod Receipts
