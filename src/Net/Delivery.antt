-- ===== src/Net/Delivery.antt =====
-- The two ends of src/change_lib/net/connection.hpp together.
use wallchanger.Net.Message.{Message}
use wallchanger.Net.Connection.{Connection}
