-- ===== src/Viewer.antt =====
-- The remote view of the browser (src/job_applier/web/edge_auth.py).
mod Bytes
pub mod Handshake
pub mod Rfb
pub mod Relay
pub use Bytes.*
