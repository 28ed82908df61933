-- ===== src/Entities/Buttons/Offers.antt =====
-- When the buttons are offered, and that an offered one is not refused.
use hass_melitta_barista_ts.Coordinator.State.{Coordinator}
