-- ===== src/KbCrawl.antt =====
-- app/services/kb/crawl.py: the crawler of the knowledge base. Scope says which addresses belong to a
-- crawl, Slice is one run of it, and the other children are proofs.
pub mod Scope
pub mod Slice
pub mod Frontier
pub mod Ends
pub mod Once
pub mod Resume
mod Tests
