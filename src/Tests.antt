-- ===== src/Tests.antt =====
-- Every theorem at a concrete input, and runs of the code's functions.
mod BatchRuns
mod CommandRuns
mod DiffRuns
mod PatchRuns
mod EditRuns
mod OutputRuns
mod QuestionRuns
mod ReadRuns
mod ShellRuns
mod SmartRuns
mod PlanRuns
