-- ===== src/Store/Recovery/Crash.antt =====
-- ResetForRecovery at every point where it can fail or stop: the disk stays in one of the states
-- from which a later run finishes the reset.
pub mod States
pub mod Moves
pub mod Commit
pub mod Reset
