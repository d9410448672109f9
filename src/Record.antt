-- ===== src/Record.antt =====
-- internal/record: the record format. Here are its modules: the names (validate.go) and the scope
-- ids (scope.go).
pub mod Names
pub mod Scope
mod Tests
