-- ===== src/Auth.antt =====
-- Sign-in (server/src/auth): the session store, the session token, the gate of the HTTP routes and
-- of the WebSocket, and the device-code flow.
pub mod Map
pub mod Store
pub mod Session
pub mod Gate
pub mod Device
pub mod Page
pub mod Allowlist
pub mod Google
pub mod Dev
