-- ===== src/Demo.antt =====
-- frontend/src/pages, frontend/src/types and frontend/src/data: the pages of the live demo, which
-- show fixed data and send no request.
pub mod Types
pub mod Data
pub mod Instances
pub mod Shown
pub mod Network
pub mod Buckets
pub mod Lists
pub mod Images
pub mod Dashboard
