-- ===== src/Office.antt =====
-- packages/office-core: the text formats.
pub mod Base
pub mod Csv
pub mod Markdown
