-- ===== src/Tests.antt =====
-- Runs on concrete input, and the theorems at concrete data.
mod Data
mod Scanner
mod Packs
mod Run
mod Python
mod Tree
mod Sql
mod Go
mod Android
mod Kotlin
mod Typescript
mod Values
mod Install
