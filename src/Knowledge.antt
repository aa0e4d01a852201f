-- ===== src/Knowledge.antt =====
-- cbrain/knowledge: untrusted context for the agent.
pub mod Chunking
pub mod Graph
