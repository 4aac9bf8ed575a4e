-- ===== src/Tests.antt =====
-- Runs of the modelled code on concrete inputs, and the theorems at such inputs.
mod ServerText
mod ServerTable
mod MatchText
mod LinkingCode
mod LinkingTables
mod ServerRedpin
mod ServerDoit
mod ServerRemote
mod PerformanceImages
mod ShellGame
mod MallocHeap
mod ShellPlayers
mod ShellTournament
mod ShellPlace
