-- ===== src/Use/Start.antt =====
-- How a device comes into use: the start of a capture.
use beagle_logic.System.{System}
use beagle_logic.System.Returns.{Returns}
