-- ===== src/Channels/Rows.antt =====
-- The rows behind a merged channel list.
use meshonator.Base.{string_eq, option_eq, nat_eq}
use meshonator.Base.Int.{int_eq}
