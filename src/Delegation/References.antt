-- ===== src/Delegation/References.antt =====
-- moduagent/definitions/models.py: the text of an exact Agent reference, `<agent_id>@<version>`.
-- Version has the Semantic Version check, Parsing the reference's own check and `parse`.
pub mod Version
pub mod Parsing
mod Samples
