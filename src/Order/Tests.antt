-- ===== src/Order/Tests.antt =====
-- A cursor of order.go.
use web_bijin.Prelude.{◌≡◌, arith}
use web_bijin.Prelude.Decimal.{pos}
use web_bijin.Order.{photo_rank}
use web_bijin.Order.Cursor.{parse_cursor, format_cursor, parse_cursor-format_cursor}

parse_cursor-format_cursor_example : parse_cursor (format_cursor 7 12) ≡ (photo_rank 7 12, pos 12)
parse_cursor-format_cursor_example = parse_cursor-format_cursor 7 12 (omega arith) (omega arith)
