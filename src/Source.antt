-- ===== src/Source.antt =====
-- src/app/lpushSource.{h,cpp}: the messages of the workers, the queue of each connection, and the
-- registry of sources and clients. The children hold the keys, the JSON forms and the proofs.
pub mod Message
pub mod Keys
pub mod Registry
pub mod FastQueue
pub mod Deliver
pub mod Mailbox
