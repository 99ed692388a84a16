-- ===== src/Tests/Completion.antt =====
-- A node in memory on which nothing fails.
use flox_controller.Prelude.{path_of_eq}
use flox_controller.Tests.Node.{Node}
