-- ===== src/Tests.antt =====
-- Inputs on which the theorems are applied, and runs of the model on them.
mod Samples
mod Queue
mod Ingest
mod Domain
mod Llm
mod Handlers
mod Graph
mod Ast
mod Scanner
mod Store
mod Api
mod Scrub
mod Setup
