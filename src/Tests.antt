-- ===== src/Tests.antt =====
-- The theorems applied to concrete requests.
mod Samples
mod KernelTests
mod PodTests
mod ClientTests
mod UtilTests
mod MiddlewareTests
mod RunTests
mod MustGatherTests
mod SosreportTests
mod ServerTests
mod CatalogTests
