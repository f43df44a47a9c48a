-- ===== src/Protocol.antt =====
-- internal/engine/protocol: the investigation protocol.
pub mod Playbook
pub mod Questions
pub mod Resolution
pub mod Requests
pub mod Effects
pub mod Resolving
pub mod Turn
