-- ===== src/Tests.antt =====
-- Runs of the models on small inputs, and the theorems at such inputs.
mod LimitedSets
mod Autoscaling
mod Blueprints
mod States
mod Tasks
mod Requests
mod Retries
mod Traces
mod Workers
mod Creation
mod Graphs
mod Crontabs
mod Commands
mod Stores
mod Results
mod Chords
mod Beats
mod Failures
