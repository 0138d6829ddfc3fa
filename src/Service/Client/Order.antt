-- ===== src/Service/Client/Order.antt =====
-- The sessions that a service opens, as the other side sees them.
use cocaine_framework_go.Message.{Message}
use cocaine_framework_go.Service.Channel
use cocaine_framework_go.Service.Client
use cocaine_framework_go.Service.Client.{Service, send_msg, open_channel}
