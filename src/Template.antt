-- ===== src/Template.antt =====
-- server/src/template: task templates, their parameters, and rendering.
pub mod Types
pub mod Validator
pub mod Renderer
pub mod Render
pub mod Store
