-- ===== src/Clock.antt =====
-- Clock (include/amarula/dbus/connman/gclock.hpp, src/dbus/gconnman_clock.cpp): its properties, how
-- they are read, and its requests.
pub mod Enums
pub mod Props
pub mod Reading
pub mod Calls
pub mod Print
