-- ===== src/Api.antt =====
-- src/api/upnpapi.c: the table of handles, and the calls of a device's application.
pub mod Handles
pub mod Device
