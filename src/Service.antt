-- ===== src/Service.antt =====
-- Service (include/amarula/dbus/connman/gservice.hpp, src/dbus/gconnman_service.cpp): a service's
-- properties, how they are read, and its requests.
pub mod Enums
pub mod Methods
pub mod Blocks
pub mod Props
pub mod Fields
pub mod Reading
pub mod Calls
pub mod Roaming
pub mod BlockReading
pub mod Print
pub mod BlocksReading
