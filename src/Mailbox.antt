-- ===== src/Mailbox.antt =====
-- The application mailboxes: values that producers hand to a link owner.
pub mod Outbox
pub mod Fifo
pub mod Latest
