-- ===== src/Ahci/Working.antt =====
-- On a controller with a drive, the driver's disk is a working disk.
