-- ===== src/Server.antt =====
-- The services behind the client: src/services.
pub mod Samples
pub mod Numbers
pub mod Text
pub mod Jwt
pub mod Accounts
pub mod Urls
pub mod Wire
pub mod Clicks
pub mod Cleanup
