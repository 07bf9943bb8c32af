-- ===== src/Screenshot.antt =====
-- The screenshot tool of cpp/qt/ScreenShot.
pub mod Rect
pub mod Area
pub mod Window
pub mod Painter
pub mod Desktop
pub mod Examples
pub mod DesktopExamples
pub mod PainterExamples
pub mod WindowExamples
