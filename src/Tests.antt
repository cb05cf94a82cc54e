-- ===== src/Tests.antt =====
-- Concrete runs of the modelled parts of llm_serve, and the theorems on them.
mod Samples
mod BlockRuns
mod PrefixRuns
mod SchedulerRuns
mod StatisticsRuns
mod ApiRuns
mod TypeRuns
mod Floats
mod ConfigRuns
mod ServingRuns
mod MetricRuns
