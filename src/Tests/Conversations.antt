-- ===== src/Tests/Conversations.antt =====
-- The theorem on reading a conversation at a concrete state.
use rust_zap.Conversations.Reading.{IsRead, mark_read, mark_read-IsRead}
use rust_zap.Tests.Fixtures.{chat, stamp, one_message}

mark_read-IsRead_example :
    IsRead "p" "c" chat one_message (mark_read "p" "c" chat 50 stamp one_message)
mark_read-IsRead_example = mark_read-IsRead "p" "c" chat 50 stamp one_message
