-- ===== src/UdpMulticast/Tests.antt =====
-- Packets received.
use c_utilities.Common.{◌≡◌, refl, true, replicate}
use c_utilities.Common.Run.{fault}
use c_utilities.EventFw.Tests.{listening}
use c_utilities.UdpMulticast.{receive_multicast_message}

-- A packet of 256 bytes is written past the array.
receive_long : receive_multicast_message true (replicate 256 7) listening ≡ fault
unfolding receive_multicast_message
receive_long = refl
