-- ===== src/Forensics.antt =====
-- internal/forensics: the analysis of a crash (analysis.go) and the filter of harmless events
-- (noise_filter.go).
pub mod Maps
pub mod Analysis
pub mod Noise
