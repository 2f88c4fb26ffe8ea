-- ===== src/Preproc.antt =====
-- tools/wafadmin/Tools/preproc.py: the C preprocessor that finds the dependencies of a source file.
pub mod Token
pub mod Eval
pub mod Macro
pub mod Expand
pub mod Scan
pub mod Parser
