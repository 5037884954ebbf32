-- ===== src/MessageRepository/Upsert.antt =====
-- `upsertMessage`: what is written for an observed message, and to which row. Its time is a valid date;
-- the queries of Prisma are arguments.
pub mod Data
pub mod Conflicts
pub mod Ladder
pub mod Signs
pub mod Creation
pub mod Times
