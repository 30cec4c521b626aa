-- ===== src/Tests.antt =====
-- The theorems at concrete inputs, by component.
mod Text
mod Level
mod Errors
mod Format
mod World
mod Sink
mod Config
mod Files
mod RunDir
mod Reaped
mod Macros
mod Logger
mod State
mod Delivery
mod Threads
mod Signals
mod Testing
