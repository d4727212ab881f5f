-- ===== src/Adjust/Open.antt =====
-- `adjustLocalState` within the window of a metric's first report.
use scale_authorizer.Application.{Application}
