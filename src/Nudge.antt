-- ===== src/Nudge.antt =====
-- distributions/exporter/nudgehttpexporter: the exporter that turns OTLP traces into Nudge raw
-- data and posts them.
pub mod Result
pub mod Extension
pub mod Attributes
pub mod Semantics
pub mod Config
pub mod Names
pub mod Model
pub mod Codes
pub mod Stack
pub mod Layers
pub mod Spans
pub mod Translate
pub mod Send
pub mod Host
pub mod Creation
pub mod Response
pub mod Export
pub mod Push
pub mod Factory
pub mod Page
mod Tests
