-- ===== src/Client.antt =====
-- frontend/src/api/client.ts, the HTTP client of the dashboard.
pub mod Http
pub mod Types
pub mod Endpoints
pub mod Format
pub mod Laws
