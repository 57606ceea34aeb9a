-- ===== src/Tests.antt =====
-- Runs of the model on concrete inputs, and the theorems at inputs that meet their hypotheses.
mod ConfigTests
mod TagTests
mod NewerTests
mod SearchTests
mod ReportTests
mod ExtractorTests
mod BuildTests
mod ChartTests
mod ScanTests
mod ScrapeTests
mod AccessTests
