-- ===== src/Handlers/Rotation.antt =====
-- The segment that `SegmentRotate` opens behind the one that it closed.
