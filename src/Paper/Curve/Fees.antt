-- ===== src/Paper/Curve/Fees.antt =====
-- Laws of `nav_history`.
use stock_platform.Float.{Float}
