-- ===== src/Access.antt =====
-- The edge's authentication of a viewer (src/job_applier/web/edge_auth.py).
pub mod Jwks
pub mod Token
