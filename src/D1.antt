-- ===== src/D1.antt =====
-- internal/stored1/stored1.go: the store over Cloudflare D1's REST API.
pub mod Wire
pub mod Store
pub mod Conforms
pub mod Inserts
pub mod Reads
pub mod Updates
pub mod Sweeps
pub mod Refinement
