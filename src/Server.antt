-- ===== src/Server.antt =====
-- src/networking: the TCP server, its clients and its queues.
pub mod Client
pub mod Table
pub mod Sending
pub mod Events
pub mod DefaultAssembler
pub mod Startup
pub mod Showing
