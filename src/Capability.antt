-- ===== src/Capability.antt =====
-- capability.rs: what the program declares about itself, as three documents. A table of the source is
-- collected into a sorted map; the version is that of the build.
mod Portable
mod Contract
mod Schema
pub mod Names
mod Tests
unfoldable pub use Portable.*
unfoldable pub use Contract.*
unfoldable pub use Schema.*
