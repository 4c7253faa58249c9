-- ===== src/Workers.antt =====
-- app/workers/db_worker.py: the loops that work off what the tables leave to do. A loop is modelled by
-- its body, a step on the database and on the counters of failures; the pauses between the steps are
-- left out.
pub mod Embedding
pub mod Extraction
pub mod Assembling
pub mod Logging
