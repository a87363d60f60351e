-- ===== src/Components.antt =====
-- web/src/components, without web/src/components/ui.
pub mod Initials
pub mod Theme
pub mod Layout
pub mod UrlItem
