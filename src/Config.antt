-- ===== src/Config.antt =====
-- internal/config: the names of machines and the saved forwards.
pub mod HubName
pub mod Ports
pub mod Templates
pub mod Store
pub mod Entry
pub mod Providers
pub mod File
pub mod Edit
