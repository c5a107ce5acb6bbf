-- ===== src/Workbench.antt =====
-- The use-cases over the database. A use-case commits once, at its end; what it raises before that leaves
-- the committed tables as they were, so a raised fault carries no database.
pub mod Submissions
pub mod Quotes
pub mod Schemas
pub mod Inbox
pub mod Latest
pub mod Dearer
pub mod InboxSpec
