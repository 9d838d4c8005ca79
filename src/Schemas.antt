-- ===== src/Schemas.antt =====
-- packages/common-schemas: the enumerations and records that the services exchange. Times are
-- numbers, identifiers (UUIDs) are numbers.
mod Enums
mod Records
pub use Enums.*
pub use Records.*
