-- ===== src/Scan/Checks/Drift.antt =====
-- internal/scan/runner.go on internal/registry/image.go: when a result says that a digest changed.
use yk_update_checker.Registry.Scope.{Scope}
use yk_update_checker.Text.{Text}
