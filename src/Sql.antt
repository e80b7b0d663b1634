-- ===== src/Sql.antt =====
-- src/sql: from the text of a statement to its plan, and the bytes of a row.
pub mod Lexer
pub mod Ast
pub mod Schema
pub mod Parser
pub mod RowCodec
pub mod Planner
