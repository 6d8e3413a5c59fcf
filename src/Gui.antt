-- ===== src/Gui.antt =====
-- tpe_gui.c: the parts of the main window that keep a state: the map, the icons of the boards and
-- the message boxes. What Evas and Edje draw is not modelled.
pub mod Map
pub mod Boards
pub mod Clicks
pub mod Icons
pub mod Summary
pub mod Visible
pub mod Colours
mod Tests
