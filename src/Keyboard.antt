-- ===== src/Keyboard.antt =====
-- The Keyboard service: provd/internal/services/keyboard/keyboard.go and embed.go. Its state, its
-- constructor and the operations on the current keyboard stand here.
pub mod Layouts
pub mod Current
pub mod Service
pub mod Laws
