-- ===== src/Tests.antt =====
-- Tests of the models on concrete inputs, and the theorems at such inputs.
mod Fixed
mod Clocks
mod Cognitions
mod Governing
mod Journals
mod Goods
mod Camp
mod Worlds
mod Breakers
mod Villages
mod Paths
mod Errands
mod Hails
mod Predators
mod Loops
