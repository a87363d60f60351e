-- ===== src/Api.antt =====
-- web/src/api: the HTTP client and the calls that the pages make.
pub mod Client
pub mod Urls
pub mod Auth
pub mod Health
