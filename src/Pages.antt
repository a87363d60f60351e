-- ===== src/Pages.antt =====
-- web/src/pages: one module for each page.
pub mod Dashboard
pub mod Health
pub mod Insights
pub mod Login
pub mod Profile
pub mod Settings
pub mod Signup
pub mod VerifyOtp
