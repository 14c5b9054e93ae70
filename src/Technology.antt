-- ===== src/Technology.antt =====
-- Technology (include/amarula/dbus/connman/gtechnology.hpp, src/dbus/gconnman_technology.cpp): its
-- properties, how they are read, and its requests.
pub mod Enums
pub mod Props
pub mod Reading
pub mod Calls
pub mod Print
