-- ===== src/Runs.antt =====
-- Runs of the definitions and of the theorems on small packets.
mod Data
mod CompareRuns
mod DisplayRuns
mod ServerRuns
mod DecodeRuns
mod EncodeRuns
mod PositionRuns
mod TemplateRuns
mod DissectRuns
mod DictionaryRuns
mod ClientRuns
mod ParserRuns
mod PluginRuns
