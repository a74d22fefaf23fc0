-- ===== src/Examples.antt =====
-- Tests, and the theorems at concrete inputs.
mod Maps
mod World
mod Toy
mod ToyLaws
mod Samples
mod Clusters
mod Bundles
mod Connectors
mod Process
mod Frames
mod Copies
mod Runs
mod BundleRuns
mod Workers
mod Passes
mod Deletions
