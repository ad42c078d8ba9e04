-- ===== src/S3backup.antt =====
-- internal/s3backup/s3backup.go: the scan of an S3 bucket for backups of a resource.
pub mod Bucket
pub mod Matching
pub mod Candidates
pub mod Scan
pub mod Best
pub mod Origin
pub mod Listing
