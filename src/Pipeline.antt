-- ===== src/Pipeline.antt =====
-- The job pipeline's topology and its run and step bookkeeping:
-- backend/app/services/pipeline_service.py and backend/app/models/pipeline.py.
pub mod Topology
pub mod Tables
pub mod Status
pub mod Hooks
pub mod Finish
pub mod Patrol
