-- ===== src/Nano.antt =====
-- nano_client.rs and the files of nano_client/: the small client. The asynchronous calls of one task
-- run one after the other; `Client` holds the fields of `NanoClient` and the state of the platform
-- that every call borrows.
pub mod Buffer
pub mod Platform
pub mod Client
pub mod Session
pub mod Serving
pub mod Example
