-- ===== src/Scanner.antt =====
-- src/scanner/scanner.go: the loop over the blocks, and the plugin interface of
-- src/scanner/plugin_api.go. `break` leaves the innermost loop, so an action that fails stands for a
-- break of the loop that runs it, and that loop catches the failure.
pub mod Operation
pub mod Block
pub mod Keeps
pub mod Loops
pub mod Keys
pub mod OpRows
pub mod Coverage
pub mod Stores
pub mod Rounds
pub mod Ends
pub mod Progress
pub mod Plain
pub mod Steady
pub mod Machine
pub mod Refines
pub mod Behind
pub mod Registered
pub mod Persist
pub mod WellFormed
pub mod CompleteOps
pub mod Complete
pub mod CompleteBlocks
pub mod CompleteScan
pub mod CompleteCheckpoints
pub mod CompleteRounds
pub mod Enrich
pub mod TableIndex
pub mod Restart
pub mod Lives
pub mod CompleteLives
