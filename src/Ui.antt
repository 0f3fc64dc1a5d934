-- ===== src/Ui.antt =====
-- internal/ui: the pages of the display and the router that chooses among them.
pub mod Pages
pub mod Router
