-- ===== src/Utils.antt =====
-- src/utils: the error screen, the log and the font of the screen.
pub mod Psod
pub mod Log
pub mod Font
