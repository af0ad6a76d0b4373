-- ===== src/Web.antt =====
-- web_framework.go: the parts of the web framework that serve pages.
pub mod Pages
pub mod States
pub mod Renders
pub mod Css
pub mod Rules
pub mod Api
pub mod Html
pub mod Scopes
pub mod Chains
