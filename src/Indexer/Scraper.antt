-- ===== src/Indexer/Scraper.antt =====
-- internal/indexer/scraper: YAML definitions of sources; of it, the templates and their escapes.
pub mod Template
pub mod Escapes
mod Examples
