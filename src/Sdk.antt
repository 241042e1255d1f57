-- ===== src/Sdk.antt =====
-- src/WuKongEasySDK: the client's options and its connection supervisor.
pub mod Options
pub mod Supervisor
pub mod Requests
