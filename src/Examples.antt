-- ===== src/Examples.antt =====
-- Concrete inputs for the theorems, one file for each part.
mod Samples
mod Tokens
mod Features
mod Upstream
mod Validator
mod Refreshing
mod Counting
mod Serving
mod Starting
mod Frontend
mod Streaming
mod Persisting
mod Watching
