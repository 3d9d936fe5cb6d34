-- ===== src/Handlers/Sandbox.antt =====
-- Where the handlers of mlvfs/main.c send requests inside MLV files: to ".MLD" folders.
pub mod Redirect
pub mod Requests
