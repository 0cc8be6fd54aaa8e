-- ===== src/Schemas.antt =====
-- src/schemas: the field schemas that every write is parsed with, and the shared enumerations.
pub mod Common
pub mod Parsing
pub mod Incident
pub mod Events
pub mod Alert
pub mod Containment
