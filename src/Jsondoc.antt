-- ===== src/Jsondoc.antt =====
-- The checks on JSON documents: jsondoc/.
pub mod Budget
pub mod Numbers
