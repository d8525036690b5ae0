-- ===== src/Tests.antt =====
-- Tests of the models, and instances of their theorems at concrete inputs.
mod Answering
mod Bindings
mod Databases
mod Fixtures
mod Sources
mod Statements
mod Tables
mod Times
mod Types
mod Values
