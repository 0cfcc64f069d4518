-- ===== src/Tui.antt =====
-- internal/tui: the terminal interface's state that is not drawing.
pub mod Table
pub mod SourceForm
mod Examples
