-- ===== src/Manager.antt =====
-- Manager (include/amarula/dbus/connman/gmanager.hpp, src/dbus/gconnman_manager.cpp): its properties,
-- the lists of services and technologies, and the input that its agent answers with.
pub mod Enums
pub mod Props
pub mod Reading
pub mod Lists
pub mod Proxies
pub mod Defs
pub mod Paths
pub mod Order
pub mod Changes
pub mod Signals
pub mod Made
pub mod Reads
pub mod View
pub mod Refinement
pub mod Kept
pub mod KeptReplies
pub mod History
pub mod Untouched
pub mod Histories
pub mod Fields
pub mod Classify
pub mod Input
pub mod Answers
pub mod Calls
