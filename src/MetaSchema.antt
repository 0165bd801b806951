-- ===== src/MetaSchema.antt =====
-- src/meta_schema.py: the contract of meta.json, as a schema document that `check` interprets, and
-- the rules across fields.
pub mod Schema
pub mod CrossField
pub mod Names
pub mod Contract
