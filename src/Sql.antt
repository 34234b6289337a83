-- ===== src/Sql.antt =====
-- The reader of SQL statements of internal/policy/mysql.go: its scanner, its parser, and the
-- facts about both.
pub mod Token
pub mod Scan
pub mod Parser
pub mod Grammar
